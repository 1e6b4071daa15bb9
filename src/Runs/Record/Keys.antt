-- ===== src/Runs/Record/Keys.antt =====
-- run_lifecycle/record.py: which file holds a record, and what is read back.
use keyhole_sdk.Base.{
  ◌≡◌, refl, sym, ap, ◌∙◌, String, Bool, true, false, not, inl, inr, Option, none, some, [], ◌∷◌,
  or_default, str_eq, truthy, if◌then◌else◌, arith, All, Bool-cases, Option-cases, eq_refl,
}
use Prim.Native.Char.{Char}
use keyhole_sdk.Base.Dict.{lookup, insert, lookup-insert}
use keyhole_sdk.Base.Json.{Json, obj, get_field}
use keyhole_sdk.Runs.Record.{
  RunRecord, to_dict, from_dict, Files, missing_key, write_failed, parse_file, key_of, names,
  scan_for, file_of, save, load, with_status, update_status,
}

from_dict-to_dict : (r : RunRecord) (now : String) → from_dict (to_dict r now) ≡ r
unfolding from_dict to_dict get_field
from_dict-to_dict r now = refl

guarded :
    {A : Type 0} (w t : Bool) (x g : A)
    → (if not w then inl write_failed else if not t then inl missing_key else inr x) ≡ inr g
    → (g ≡ x) × (t ≡ true)
guarded false t x g e = ground arith
guarded true false x g e = ground arith
guarded true true x g e = (ground arith, refl)

module _ (is_alnum : Char → Bool) where
  -- A file with a record stands under the name of the record's key, and there is a key.
  abbrev pub IsHome : String → Option Json → Type 0
  IsHome name content =
      (r : RunRecord)
      → parse_file content ≡ some r
      → (name ≡ file_of is_alnum (key_of r)) × (truthy (key_of r) ≡ true)

  abbrev pub IsKeyed : Files → Type 0
  IsKeyed = All (λ f. IsHome f.0 f.1)

  module _ (writes : Bool) (now : String) where
    some-same : {c d : Option Json} → some c ≡ some d → c ≡ d
    some-same {c} e = ap (λ o. or_default o c) e

    some-injective : {r q : RunRecord} → some r ≡ some q → r ≡ q
    some-injective {r} e = ap (λ o. or_default o r) e

    saved : RunRecord → Option Json
    saved r = some (obj (to_dict r now))

    parse_file-saved : (r : RunRecord) → parse_file (saved r) ≡ some r
    unfolding saved
    parse_file-saved r = ap some (from_dict-to_dict r now)

    insert-IsKeyed :
        (name : String) (content : Option Json) (fs : Files)
        → IsHome name content
        → IsKeyed fs
        → IsKeyed (insert name content fs)
    unfolding insert
    insert-IsKeyed name content [] h k = (h, tt)
    insert-IsKeyed name content ((n, c) ∷ fs) h (a, k) = elim (Bool-cases (str_eq n name)) [
      | inl e ↦ rw (e, insert) (h, k)
      | inr e ↦ rw (e, insert) (a, insert-IsKeyed name content fs h k)
    ]

    saved-IsHome :
        (r : RunRecord) → truthy (key_of r) ≡ true → IsHome (file_of is_alnum (key_of r)) (saved r)
    saved-IsHome r t q e =
        let same : r ≡ q = some-injective (sym (parse_file-saved r) ∙ e) in rw (sym same) (refl, t)

    scan_for-skips :
        (id n : String) (c : Option Json) (fs : Files)
        → parse_file c ≡ none
        → scan_for id ((n, c) ∷ fs) ≡ scan_for id fs
    unfolding scan_for
    scan_for-skips id n c fs p = rw (p, scan_for) refl

    scan_for-takes :
        (id n : String) (c : Option Json) (fs : Files) (q : RunRecord)
        → parse_file c ≡ some q
        → names id q ≡ true
        → scan_for id ((n, c) ∷ fs) ≡ some q
    unfolding scan_for
    scan_for-takes id n c fs q p m = rw (p, m, scan_for) refl

    scan_for-passes :
        (id n : String) (c : Option Json) (fs : Files) (q : RunRecord)
        → parse_file c ≡ some q
        → names id q ≡ false
        → scan_for id ((n, c) ∷ fs) ≡ scan_for id fs
    unfolding scan_for
    scan_for-passes id n c fs q p m = rw (p, m, scan_for) refl

    scan_for-truthy :
        (id : String) (fs : Files) (r : RunRecord)
        → IsKeyed fs
        → scan_for id fs ≡ some r
        → truthy (key_of r) ≡ true
    unfolding scan_for
    scan_for-truthy id [] r k e = ground arith
    scan_for-truthy id ((n, c) ∷ fs) r (a, k) e = elim (Option-cases (parse_file c)) [
      | inl p ↦ scan_for-truthy id fs r k (sym (scan_for-skips id n c fs p) ∙ e)
      | inr (q, p) ↦ elim (Bool-cases (names id q)) [
        | inl m ↦
            let same : q ≡ r = some-injective (sym (scan_for-takes id n c fs q p m) ∙ e) in
            rw (sym same) (a q p).1
        | inr m ↦ scan_for-truthy id fs r k (sym (scan_for-passes id n c fs q p m) ∙ e)
      ]
    ]

    lookup-first :
        (n name : String) (d : Option Json) (fs : Files)
        → str_eq n name ≡ true
        → lookup name ((n, d) ∷ fs) ≡ some d
    unfolding lookup
    lookup-first n name d fs m = rw (m, lookup) refl

    lookup-rest :
        (n name : String) (d : Option Json) (fs : Files)
        → str_eq n name ≡ false
        → lookup name ((n, d) ∷ fs) ≡ lookup name fs
    unfolding lookup
    lookup-rest n name d fs m = rw (m, lookup) refl

    lookup-IsHome :
        (name : String) (c : Option Json) (fs : Files)
        → IsKeyed fs
        → lookup name fs ≡ some c
        → (r : RunRecord) → parse_file c ≡ some r
        → truthy (key_of r) ≡ true
    unfolding lookup
    lookup-IsHome name c [] k e r p = ground arith
    lookup-IsHome name c ((n, d) ∷ fs) (a, k) e r p = elim (Bool-cases (str_eq n name)) [
      | inl m ↦ (a r (ap parse_file (some-same (sym (lookup-first n name d fs m) ∙ e)) ∙ p)).1
      | inr m ↦ lookup-IsHome name c fs k (sym (lookup-rest n name d fs m) ∙ e) r p
    ]

    load-file :
        (id : String) (fs : Files) (c : Option Json)
        → lookup (file_of is_alnum id) fs ≡ some c
        → load is_alnum id fs ≡ parse_file c
    unfolding load
    load-file id fs c e = rw (e, load) refl

    load-scan :
        (id : String) (fs : Files)
        → lookup (file_of is_alnum id) fs ≡ none
        → load is_alnum id fs ≡ scan_for id fs
    unfolding load
    load-scan id fs e = rw (e, load) refl

    load-truthy :
        (id : String) (fs : Files) (r : RunRecord)
        → IsKeyed fs
        → load is_alnum id fs ≡ some r
        → truthy (key_of r) ≡ true
    load-truthy id fs r k e = elim (Option-cases (lookup (file_of is_alnum id) fs)) [
      | inl m ↦ scan_for-truthy id fs r k (sym (load-scan id fs m) ∙ e)
      | inr (c, m) ↦ lookup-IsHome _ c fs k m r (sym (load-file id fs c m) ∙ e)
    ]

    save-inr :
        (r : RunRecord) (fs gs : Files)
        → save is_alnum writes now r fs ≡ inr gs
        → (gs ≡ insert (file_of is_alnum (key_of r)) (saved r) fs) × (truthy (key_of r) ≡ true)
    unfolding save saved
    save-inr r fs gs e = guarded writes (truthy (key_of r)) _ gs e

    -- A record that is saved is what is loaded for its key, and for every text with the same file name.
    pub save-load :
        (r : RunRecord) (fs gs : Files) (id : String)
        → save is_alnum writes now r fs ≡ inr gs
        → file_of is_alnum id ≡ file_of is_alnum (key_of r)
        → load is_alnum id gs ≡ some r
    save-load r fs gs id e same =
        let (g, t) = save-inr r fs gs e in
        load-file id gs (saved r) (
          rw (g, same)
            (lookup-insert (file_of is_alnum (key_of r)) (file_of is_alnum (key_of r)) (saved r) fs
              ∙ rw (eq_refl (file_of is_alnum (key_of r))) refl))
        ∙ parse_file-saved r

    -- Saving keeps every record in the file that its key names, under a key.
    pub save-IsKeyed :
        (r : RunRecord) (fs gs : Files)
        → IsKeyed fs
        → save is_alnum writes now r fs ≡ inr gs
        → IsKeyed gs
    save-IsKeyed r fs gs k e =
        let (g, t) = save-inr r fs gs e in
        rw g (insert-IsKeyed (file_of is_alnum (key_of r)) (saved r) fs (saved-IsHome r t) k)

    save-writes :
        (r : RunRecord) (fs : Files)
        → writes ≡ true
        → truthy (key_of r) ≡ true
        → save is_alnum writes now r fs ≡ inr (insert (file_of is_alnum (key_of r)) (saved r) fs)
    unfolding save saved
    save-writes r fs w t = rw (w, t, save) refl

    update_status-saves :
        (id status : String) (r : RunRecord) (fs : Files)
        → load is_alnum id fs ≡ some r
        → update_status is_alnum writes now id status fs
          ≡ save is_alnum writes now (with_status status r) fs
    unfolding update_status
    update_status-saves id status r fs e = rw (e, update_status) refl

    -- Where the records are keyed (each file with a record has the name of its key, and there is a
    -- key) and files can be written, setting the status of a record that is found keeps them keyed;
    -- the record is loaded for its key with the new status and its other fields; every other file is
    -- as it was.
    pub update_status_lem :
        (id status : String) (r : RunRecord) (fs : Files)
        → writes ≡ true
        → IsKeyed fs
        → load is_alnum id fs ≡ some r
        → (gs : Files) × (update_status is_alnum writes now id status fs ≡ inr gs)
          × IsKeyed gs
          × (load is_alnum (key_of r) gs ≡ some (with_status status r))
          × ((name : String)
              → str_eq (file_of is_alnum (key_of r)) name ≡ false
              → lookup name gs ≡ lookup name fs)
    update_status_lem id status r fs w k e =
        let q = with_status status r in
        let made = save-writes q fs w (load-truthy id fs r k e) in
        let gs = insert (file_of is_alnum (key_of r)) (saved q) fs in
        (
          gs,
          update_status-saves id status r fs e ∙ made,
          save-IsKeyed q fs gs k made,
          save-load q fs gs (key_of r) made refl,
          λ name n. lookup-insert (file_of is_alnum (key_of r)) name (saved q) fs ∙ rw n refl,
        )

    pub update_status-misses :
        (id status : String) (fs : Files)
        → load is_alnum id fs ≡ none
        → update_status is_alnum writes now id status fs ≡ inr fs
    unfolding update_status
    update_status-misses id status fs e = rw (e, update_status) refl
