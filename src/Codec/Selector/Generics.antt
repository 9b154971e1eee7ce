-- ===== src/Codec/Selector/Generics.antt =====
-- The test for an empty text of generics, against a description that looks at the generics.
use fuels_rs.Prelude.{ℕ, ◌<◌, ◌≡◌, refl, ap, arith, false, List, [], ◌∷◌, ◌++◌, length}
use fuels_rs.ParamTypes.{ParamType, ParamTypes}
use fuels_rs.Codec.Selector.{codes, is_empty, angled, resolve_arg, resolve_args, more_args}

-- The generics in angle brackets, if there are any.
unfoldable pub generics_of : ParamTypes → List ℕ
generics_of ParamTypes.nil = []
generics_of (ParamTypes.cons p ps) = codes "<" ++ (resolve_args (ParamTypes.cons p ps) ++ codes ">")

longer : (xs ys : List ℕ) → 0 < length xs → is_empty (xs ++ ys) ≡ false
longer [] ys h = ground arith
longer (x ∷ xs) ys h = refl

resolve_arg-positive : (p : ParamType) → 0 < length (resolve_arg p)
unfolding resolve_arg
resolve_arg-positive ParamType.u8 = omega arith
resolve_arg-positive ParamType.u16 = omega arith
resolve_arg-positive ParamType.u32 = omega arith
resolve_arg-positive ParamType.u64 = omega arith
resolve_arg-positive _ = omega arith

angled-generics : (generics : ParamTypes) → angled (resolve_args generics) ≡ generics_of generics
unfolding resolve_arg generics_of
angled-generics ParamTypes.nil = refl
angled-generics (ParamTypes.cons p ps) =
    rw (longer (resolve_arg p) (more_args ps) (resolve_arg-positive p)) refl

-- In the text of a struct and of an enum the generics stand in angle brackets before the fields or
-- variants, and there are no brackets just if there are no generics.
pub resolve_arg-generics :
    (fields generics : ParamTypes)
    → (resolve_arg (ParamType.struct fields generics)
        ≡ codes "s" ++ (generics_of generics ++ (codes "(" ++ (resolve_args fields ++ codes ")"))))
      × (resolve_arg (ParamType.enum fields generics)
          ≡ codes "e"
            ++ (generics_of generics ++ (codes "(" ++ (resolve_args fields ++ codes ")"))))
unfolding resolve_arg
resolve_arg-generics fields generics = (
  ap (λ g. codes "s" ++ (g ++ (codes "(" ++ (resolve_args fields ++ codes ")"))))
      (angled-generics generics),
  ap (λ g. codes "e" ++ (g ++ (codes "(" ++ (resolve_args fields ++ codes ")"))))
      (angled-generics generics),
)
