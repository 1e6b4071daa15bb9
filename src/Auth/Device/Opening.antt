-- ===== src/Auth/Device/Opening.antt =====
-- sdk_client_25/device_flow.py: what an accepted device authorization response promises.
use keyhole_sdk.Base.{
  ◌≡◌, ◌≤◌, String, true, Option, none, some, ◌⊎◌, inl, inr, arith, truthy, Option-cases,
}
use keyhole_sdk.Base.Json.{Json, null, bool, num, str, arr, obj, get_field}
use keyhole_sdk.Base.Int.{ℤ}
use keyhole_sdk.Auth.Device.{DeviceAuthorizationResponse, non_empty, from_fields, from_dict}

non_empty-truthy : (j : Option Json) (s : String) → non_empty j ≡ some s → truthy s ≡ true
unfolding non_empty
non_empty-truthy none s h = ground arith
non_empty-truthy (some null) s h = ground arith
non_empty-truthy (some (bool b)) s h = ground arith
non_empty-truthy (some (num n)) s h = ground arith
non_empty-truthy (some (str t)) s h = ground arith
non_empty-truthy (some (arr js)) s h = ground arith
non_empty-truthy (some (obj fs)) s h = ground arith

-- What is known of an answer: a device has its codes and its bounds.
unfoldable pub Bounded : String ⊎ DeviceAuthorizationResponse → Type 0
Bounded (inl m) = Unit
Bounded (inr d) =
    (60 ≤ d.expires_in)
    × (1 ≤ d.interval)
    × (truthy d.device_code ≡ true)
    × (truthy d.user_code ≡ true)
    × (truthy d.verification_uri ≡ true)

from_dict-Bounded : (int : Json → Option ℤ) (j : Json) → Bounded (from_dict int j)
unfolding from_dict from_fields Bounded
from_dict-Bounded int null = tt
from_dict-Bounded int (bool b) = tt
from_dict-Bounded int (num n) = tt
from_dict-Bounded int (str s) = tt
from_dict-Bounded int (arr js) = tt
from_dict-Bounded int (obj answer) =
    elim (Option-cases (non_empty (get_field "device_code" answer))) [
      | inl e ↦ rw (e, from_fields) tt
      | inr (dc, e) ↦
          rw (e, from_fields)
            (elim (Option-cases (non_empty (get_field "user_code" answer))) [
              | inl f ↦ rw (f, from_fields) tt
              | inr (uc, f) ↦
                  rw (f, from_fields)
                    (elim (Option-cases (non_empty (get_field "verification_uri" answer))) [
                      | inl g ↦ rw (g, from_fields) tt
                      | inr (uri, g) ↦
                          rw (g, from_fields)
                            (
                              omega arith,
                              omega arith,
                              non_empty-truthy (get_field "device_code" answer) dc e,
                              non_empty-truthy (get_field "user_code" answer) uc f,
                              non_empty-truthy (get_field "verification_uri" answer) uri g,
                            )
                    ])
            ])
    ]

-- A response that is accepted has codes and an address that are not empty, a life of at least 60 s
-- and an interval of at least 1 s, whatever numbers the server sent.
from_dict_bounds :
    (int : Json → Option ℤ) (j : Json) (d : DeviceAuthorizationResponse)
    → from_dict int j ≡ inr d
    → (60 ≤ d.expires_in)
      × (1 ≤ d.interval)
      × (truthy d.device_code ≡ true)
      × (truthy d.user_code ≡ true)
      × (truthy d.verification_uri ≡ true)
unfolding Bounded
from_dict_bounds int j d e = coe 0 1 (i. Bounded (e i)) (from_dict-Bounded int j)
