-- ===== src/Base/Json.antt =====
-- A parsed JSON value, as `response.json()` returns one.
use Prim.Native.Nat.{ℕ}
use Prim.Native.String.{String}
use mathlib.Core.Bool.{Bool, true, false, not}
use mathlib.Core.Path.{◌≡◌, refl}
use native.Mathlib.Omega.{arith}
use text.Mathlib.TextEquality.{eq_iff}
use mathlib.Core.Option.{Option, none, some}
use keyhole_sdk.Base.Tests.{str_eq, truthy, ◌==◌, or_default, if◌then◌else◌}

mutual
  pub data Json : Type 0 where
    null : Json
    bool : Bool → Json
    num : ℕ → Json
    str : String → Json
    arr : Items → Json
    obj : Fields → Json

  pub data Items : Type 0 where
    nil : Items
    cons : Json → Items → Items

  pub data Fields : Type 0 where
    end : Fields
    field : String → Json → Fields → Fields

-- `o.get(k)` on an object.
unfoldable pub get_field : String → Fields → Option Json
get_field k end = none
get_field k (field j v fs) = if str_eq j k then some v else get_field k fs

-- `bool(v)`
abbrev pub truthy_json : Json → Bool
truthy_json null = false
truthy_json (bool b) = b
truthy_json (num n) = not (n == 0)
truthy_json (str s) = truthy s
truthy_json (arr nil) = false
truthy_json (arr (cons v vs)) = true
truthy_json (obj end) = false
truthy_json (obj (field k v fs)) = true

-- `d[k] = v`
unfoldable pub put_field : String → Json → Fields → Fields
put_field k v end = field k v end
put_field k v (field j w fs) =
    let rest = put_field k v fs in if str_eq j k then field j v fs else field j w rest

pub get_field-put_field :
    (k j : String) (v : Json) (d : Fields)
    → get_field k (put_field j v d) ≡ (if str_eq j k then some v else get_field k d)
unfolding get_field put_field
get_field-put_field k j v end = refl
get_field-put_field k j v (field i w d) =
    ground (arith, eq_iff j k, eq_iff i j, eq_iff i k, get_field-put_field k j v d)

abbrev pub is_end : Fields → Bool
is_end end = true
is_end (field k v fs) = false

-- `a or b`
abbrev pub or_json : Json → Json → Json
or_json a b = if truthy_json a then a else b

-- `d.get(k)`, where `None` is the null.
abbrev pub get_json : String → Fields → Json
get_json k d = or_default (get_field k d) null
