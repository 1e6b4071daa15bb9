-- ===== src/Auth/Identity.antt =====
-- sdk_client_25/identity_match.py: comparison of two identities that a server resolved. A value of
-- a compared field is a text or absent, as `WhoamiResponse` declares it.
pub mod Agreement
use keyhole_sdk.Base.{
  ◌≡◌, refl, String, Bool, true, false, not, ◌&&◌, ◌||◌, Option, none, some, List, [], ◌∷◌, ◌⊎◌,
  inl, inr, ◌↔◌, str_eq, truthy, or_str, is_empty, if◌then◌else◌, Bool-cases, All, arith, eq_iff,
  or_default,
}
use keyhole_sdk.Base.Dict.{lookup}
use keyhole_sdk.Base.Text.{◌<>◌}

pub record IdentityMatchResult : Type 0 where
  pub matched : Bool
  pub differing_fields : List String
  pub a_summary : List (String × Option String)
  pub b_summary : List (String × Option String)
  pub a_label : String
  pub b_label : String

abbrev pub compare_fields : List String
compare_fields = "user_id" ∷ "tenant_id" ∷ "org_id" ∷ []

-- A whoami as its fields: none is Python's None, an absent field is None too.
unfoldable pub project : List String → List (String × Option String) → List (String × Option String)
project [] answer = []
project (f ∷ fs) answer = (f, or_default (lookup f answer) none) ∷ project fs answer

unfoldable pub coerce : Option (List (String × Option String)) → List (String × Option String)
unfolding project
coerce none = []
coerce (some answer) = project compare_fields answer

-- `summary.get(field) or ""`: None and the empty text are both "not asserted".
unfoldable pub asserted : String → List (String × Option String) → String
asserted f summary = or_default (or_default (lookup f summary) none) ""

unfoldable pub differing :
    List String → List (String × Option String) → List (String × Option String) → List String
unfolding asserted
differing [] a b = []
differing (f ∷ fs) a b =
    let rest = differing fs a b in
    let av = asserted f a in
    let bv = asserted f b in
    if not (truthy av) || not (truthy bv) then rest else if str_eq av bv then rest else f ∷ rest

unfoldable pub warning_text : IdentityMatchResult → String
unfolding asserted
warning_text r =
    if r.matched
    then ""
    else let a = or_str (asserted "user_id" (r.a_summary)) "<unknown>" in
      let b = or_str (asserted "user_id" (r.b_summary)) "<unknown>" in
      "Detected Keyhole identity mismatch.\n\n"
      <> (r.a_label
          <> (" is connected as: "
              <> (a
                  <> ("\n"
                      <> (r.b_label
                          <> (" appears connected as: "
                              <> (b
                                  <> ("\n\nChoose one:\n- Use "
                                      <> (r.a_label
                                          <> (" identity\n- Re-authenticate "
                                              <> (r.a_label
                                                  <> ("\n- Re-authenticate "
                                                      <> (r.b_label <> "\n")))))))))))))

unfoldable pub compared :
    String
    → String
    → List (String × Option String)
    → List (String × Option String)
    → IdentityMatchResult
unfolding differing
compared a_label b_label a b =
    let fields = if is_empty a || is_empty b then [] else differing compare_fields a b in
    record {
      matched = is_empty fields;
      differing_fields = fields;
      a_summary = a;
      b_summary = b;
      a_label = a_label;
      b_label = b_label;
    }

-- A message stands for the IdentityMismatchError.
unfoldable pub detect_identity_mismatch :
    String
    → String
    → Bool
    → Option (List (String × Option String))
    → Option (List (String × Option String))
    → String ⊎ IdentityMatchResult
unfolding compared coerce warning_text
detect_identity_mismatch a_label b_label raise_on_mismatch a b =
    let result = compared a_label b_label (coerce a) (coerce b) in
    if not (result.matched) && raise_on_mismatch then inl (warning_text result) else inr result
