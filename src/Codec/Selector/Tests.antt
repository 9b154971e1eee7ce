-- ===== src/Codec/Selector/Tests.antt =====
-- Signatures of concrete functions, from the tests of the source.
use fuels_rs.Prelude.{◌≡◌, refl, ◌++◌}
use fuels_rs.ParamTypes.{ParamType, ParamTypes}
use fuels_rs.Codec.Selector.{codes, resolve_arg, resolve_args, resolve_fn_signature, show_usize}
use fuels_rs.Codec.Selector.Generics.{generics_of, resolve_arg-generics}

abbrev one_of : ParamType → ParamTypes
one_of p = ParamTypes.cons p ParamTypes.nil

array_signature :
    resolve_fn_signature (codes "some_fun") (one_of (ParamType.array ParamType.u8 10))
    ≡ codes "some_fun(a[u8;10])"
unfolding resolve_fn_signature show_usize
array_signature = refl

struct_signature :
    resolve_fn_signature (codes "f") (
      ParamTypes.cons
        (ParamType.struct (one_of ParamType.u64) (one_of ParamType.u32))
        (one_of ParamType.bool))
    ≡ codes "f(s<u32>(u64),bool)"
unfolding resolve_fn_signature
struct_signature = refl

resolve_arg-generics_example :
    (resolve_arg (ParamType.struct (one_of ParamType.u64) (one_of ParamType.u32))
      ≡ codes "s"
        ++ (generics_of (one_of ParamType.u32)
            ++ (codes "(" ++ (resolve_args (one_of ParamType.u64) ++ codes ")"))))
    × (resolve_arg (ParamType.enum (one_of ParamType.u64) (one_of ParamType.u32))
        ≡ codes "e"
          ++ (generics_of (one_of ParamType.u32)
              ++ (codes "(" ++ (resolve_args (one_of ParamType.u64) ++ codes ")"))))
resolve_arg-generics_example = resolve_arg-generics (one_of ParamType.u64) (one_of ParamType.u32)
