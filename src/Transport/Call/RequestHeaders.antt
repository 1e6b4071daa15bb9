-- ===== src/Transport/Call/RequestHeaders.antt =====
-- What the headers of an attempt say.
use keyhole_sdk.Base.{
  ℕ, ◌≡◌, refl, ◌∙◌, String, true, false, Option, none, some, Bool-cases, Option-cases, inl, inr,
  truthy, str_eq,
}
use keyhole_sdk.Base.Dict.{lookup, insert, update, lookup-insert}
use keyhole_sdk.Transport.Client.{
  Headers, GovernedTransport, get_headers, auth_headers, with_key, build_headers,
}

-- The auth headers replace no header but `Authorization`.
lookup-update-get_headers :
    (k : String) (token : Option String) (hs : Headers)
    → str_eq "Authorization" k ≡ false
    → lookup k (update hs (get_headers token)) ≡ lookup k hs
unfolding update get_headers
lookup-update-get_headers k none hs h = refl
lookup-update-get_headers k (some token) hs h = elim (Bool-cases (truthy token)) [
  | inl e ↦ rw e (rw lookup-insert (rw h refl))
  | inr e ↦ rw e refl
]

lookup-update-auth_headers :
    (t : GovernedTransport) (k : String) (n : ℕ) (hs : Headers)
    → str_eq "Authorization" k ≡ false
    → lookup k (update hs (auth_headers t n)) ≡ lookup k hs
unfolding update
lookup-update-auth_headers t k n hs h = elim (Option-cases t.auth_provider) [
  | inl e ↦ rw e refl
  | inr (provider, e) ↦ rw e (lookup-update-get_headers k (provider n) hs h)
]

-- A header that neither the auth provider nor the version sets is as the key and the id leave it.
lookup-build_headers :
    (t : GovernedTransport) (key : Option String) (k id : String) (n : ℕ) (caller : Headers)
    → str_eq "Authorization" k ≡ false
    → str_eq "X-Keyhole-SDK-Version" k ≡ false
    → lookup k (build_headers t key id n caller)
      ≡ lookup k (with_key key (insert "X-Request-Id" id caller))
unfolding build_headers
lookup-build_headers t key k id n caller h v =
    lookup-update-auth_headers t k n _ h ∙ elim (Bool-cases (truthy t.sdk_version)) [
      | inl e ↦ rw e (rw lookup-insert (rw v refl))
      | inr e ↦ rw e refl
    ]

lookup-with_key :
    (key : Option String) (k : String) (hs : Headers)
    → str_eq "X-Idempotency-Key" k ≡ false
    → lookup k (with_key key hs) ≡ lookup k hs
lookup-with_key none k hs h = refl
lookup-with_key (some key) k hs h = elim (Bool-cases (truthy key)) [
  | inl e ↦ rw e (rw lookup-insert (rw h refl))
  | inr e ↦ rw e refl
]

pub build_headers-request_id :
    (t : GovernedTransport) (key : Option String) (id : String) (n : ℕ) (caller : Headers)
    → lookup "X-Request-Id" (build_headers t key id n caller) ≡ some id
build_headers-request_id t key id n caller =
    lookup-build_headers t key "X-Request-Id" id n caller refl refl
    ∙ lookup-with_key key "X-Request-Id" _ refl
    ∙ rw lookup-insert refl

pub build_headers-key :
    (t : GovernedTransport) (key id : String) (n : ℕ) (caller : Headers)
    → truthy key ≡ true
    → lookup "X-Idempotency-Key" (build_headers t (some key) id n caller) ≡ some key
build_headers-key t key id n caller h =
    lookup-build_headers t (some key) "X-Idempotency-Key" id n caller refl refl
    ∙ rw h (rw lookup-insert refl)

-- Any other header comes from the caller.
pub build_headers-other :
    (t : GovernedTransport) (key : Option String) (k id : String) (n : ℕ) (caller : Headers)
    → str_eq "Authorization" k ≡ false
    → str_eq "X-Keyhole-SDK-Version" k ≡ false
    → str_eq "X-Idempotency-Key" k ≡ false
    → str_eq "X-Request-Id" k ≡ false
    → lookup k (build_headers t key id n caller) ≡ lookup k caller
build_headers-other t key k id n caller a v i r =
    lookup-build_headers t key k id n caller a v
    ∙ lookup-with_key key k _ i
    ∙ rw lookup-insert (rw r refl)
