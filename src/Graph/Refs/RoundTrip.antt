-- ===== src/Graph/Refs/RoundTrip.antt =====
-- References are read back as they are printed, and resolving an endpoint is done once.
use Prim.Native.Char.{Char, code}
use Prim.Native.String.{◌++◌}
use text.Mathlib.TextEquality.{Char-path}
use text.Mathlib.TextLemmas.{cons-append, nil-append}
use beadloom.Base.{
  ℕ, String, Bool, true, false, ◌||◌, Option, none, some, nat_beq, nat_beq_iff, Bool-cases, inl,
  inr, ◌≡◌, ◌↔◌, refl, arith, sym, ◌∙◌, is_blank, starts_with_code, drop_first, partition,
}
use beadloom.Graph.Refs.{
  FederatedRef, Parsed, ok, err, qualify, qualified, is_foreign_ref, foreign_ref, parse_ref,
  namespace, resolve_parsed, resolve_endpoint,
}

-- The text holds no character of this code.
unfoldable pub has_code : ℕ → String → Bool
has_code k String.[] = false
has_code k (String.◌∷◌ c s) = nat_beq (code c) k || has_code k s

-- What `partition` takes apart is the text.
partition-some :
    (k : Char) (s a b : String) → partition (code k) s ≡ (a, some b) → s ≡ a ++ String.◌∷◌ k b
unfolding partition
partition-some k String.[] a b h = ground arith
partition-some k (String.◌∷◌ c s) a b h = elim (Bool-cases (nat_beq (code c) (code k))) [
  | inl e ↦
      ground
        (arith, Char-path c k ((nat_beq_iff (code c) (code k)).0 e), nil-append (String.◌∷◌ k b))
  | inr e ↦
      let before = (partition (code k) s).0 in
      ground (arith, cons-append c before (String.◌∷◌ k b), partition-some k s before b)
]

partition_before :
    (k : Char) (a b : String)
    → has_code (code k) a ≡ false
    → partition (code k) (a ++ String.◌∷◌ k b) ≡ (a, some b)
unfolding partition has_code
partition_before k String.[] b h = rw nil-append (ground (arith, nat_beq_iff (code k) (code k)))
partition_before k (String.◌∷◌ c a) b h = rw cons-append (ground (arith, partition_before k a b))

starts_with_code-cons :
    (k : Char) (raw : String)
    → starts_with_code (code k) raw ≡ true
    → raw ≡ String.◌∷◌ k (drop_first raw)
unfolding starts_with_code drop_first
starts_with_code-cons k String.[] h = ground arith
starts_with_code-cons k (String.◌∷◌ c s) h =
    ground (arith, Char-path c k ((nat_beq_iff (code c) (code k)).0 h))

-- A reference as the parser makes it: nothing is empty, a local one does not begin with the marker, and the
-- name of a repository holds no colon.
abbrev pub IsValid : FederatedRef → Type 0
IsValid r = elim r.repo [
  | none ↦ (is_blank r.ref_id ≡ false) × (is_foreign_ref r.ref_id ≡ false)
  | some repo ↦ (is_blank repo ≡ false) × (has_code b':' repo ≡ false) × (is_blank r.ref_id ≡ false)
]

before-has_code : (k : ℕ) (s : String) → has_code k (partition k s).0 ≡ false
unfolding has_code partition
before-has_code k String.[] = refl
before-has_code k (String.◌∷◌ c s) = elim (Bool-cases (nat_beq (code c) k)) [
  | inl e ↦ rw e
  | inr e ↦ rw e (rw e (before-has_code k s))
]

marked : (s : String) → "@" ++ s ≡ String.◌∷◌ "@" s
marked s = rw (cons-append, nil-append)

colon : (s : String) → ":" ++ s ≡ String.◌∷◌ ":" s
colon s = rw (cons-append, nil-append)

parse_ref-qualify :
    (repo : Option String) (ref_id : String)
    → IsValid (record { repo = repo; ref_id = ref_id })
    → parse_ref (qualify repo ref_id) ≡ ok (record { repo = repo; ref_id = ref_id })
unfolding parse_ref qualify
parse_ref-qualify none ref_id h = ground arith
parse_ref-qualify (some repo) ref_id (filled, plain, named) = rw (colon ref_id) (
    rw (marked (repo ++ String.◌∷◌ ":" ref_id)) (
      unfold starts_with_code drop_first in
      rw (partition_before ":" repo ref_id plain) (rw (filled, named))))

foreign_ref_valid :
    (repo : String) (o : Option String) (r : FederatedRef)
    → foreign_ref repo o ≡ ok r
    → (ref_id : String) × (o ≡ some ref_id)
      × (r ≡ record { repo = some repo; ref_id = ref_id })
      × (is_blank repo ≡ false)
      × (is_blank ref_id ≡ false)
unfolding foreign_ref
foreign_ref_valid repo none r h = absurd (ground arith)
foreign_ref_valid repo (some ref_id) r h = (ref_id, refl, ground arith, ground arith, ground arith)

parse_ref-IsValid :
    (raw : String) (r : FederatedRef) → parse_ref raw ≡ ok r → IsValid r × (qualified r ≡ raw)
unfolding parse_ref qualified
parse_ref-IsValid raw r h = elim (Bool-cases (starts_with_code b'@' raw)) [
  | inl f ↦
      let parts = partition b':' (drop_first raw) in
      let (ref_id, e, read, filled, named) = foreign_ref_valid parts.0 parts.1 r (ground arith) in
      let whole = partition-some ":" (drop_first raw) parts.0 ref_id (ground arith) in
      rw read (
        (filled, before-has_code b':' (drop_first raw), named),
        rw (colon ref_id)
            (rw (← whole) (rw (marked (drop_first raw)) (sym (starts_with_code-cons "@" raw f)))),
      )
  | inr f ↦ ground arith
]

-- Parsing accepts a text exactly when it is the qualified form of a valid reference, which is the one that it
-- returns: what is parsed prints as it was, and what is printed parses to itself.
pub parse_ref_iff :
    (raw : String) (r : FederatedRef) → (parse_ref raw ≡ ok r) ↔ (IsValid r × (qualified r ≡ raw))
unfolding qualified
parse_ref_iff raw r =
    (parse_ref-IsValid raw r, λ (valid, e). rw (← e) (parse_ref-qualify r.repo r.ref_id valid))

-- A name of a repository that can stand in a reference.
abbrev pub IsRepo : String → Type 0
IsRepo repo = (is_blank repo ≡ false) × (has_code b':' repo ≡ false)

resolve_endpoint_of :
    (repo raw : String) (p : Parsed)
    → parse_ref raw ≡ p
    → resolve_endpoint repo raw ≡ resolve_parsed repo raw p
unfolding resolve_endpoint
resolve_endpoint_of repo raw p e = rw e

resolve_foreign :
    (repo owner ref_id : String)
    → IsValid (record { repo = some owner; ref_id = ref_id })
    → resolve_endpoint repo (qualify (some owner) ref_id) ≡ qualify (some owner) ref_id
resolve_foreign repo owner ref_id valid =
    resolve_endpoint_of repo (qualify (some owner) ref_id) _
      (parse_ref-qualify (some owner) ref_id valid)
    ∙ (unfold resolve_parsed qualified in refl)

resolve_parsed_idem :
    (repo repo' raw : String) (p : Parsed)
    → IsRepo repo
    → parse_ref raw ≡ p
    → resolve_endpoint repo' (resolve_parsed repo raw p) ≡ resolve_parsed repo raw p
unfolding resolve_parsed qualified namespace qualify
resolve_parsed_idem repo repo' raw (err x) h e = resolve_endpoint_of repo' raw (err x) e
resolve_parsed_idem repo repo' raw (ok r) h e = go r.repo r.ref_id (parse_ref-IsValid raw r e).0
  where
    go :
        (owner : Option String) (ref_id : String)
        → IsValid (record { repo = owner; ref_id = ref_id })
        → resolve_endpoint repo'
            (resolve_parsed repo raw (ok (record { repo = owner; ref_id = ref_id })))
          ≡ resolve_parsed repo raw (ok (record { repo = owner; ref_id = ref_id }))
    go none ref_id valid = resolve_foreign repo' repo ref_id (h.0, h.1, valid.0)
    go (some owner) ref_id valid = resolve_foreign repo' owner ref_id valid

-- In a repository whose name is not blank and holds no colon, resolving an endpoint gives a text that
-- resolves to itself, in whatever repository.
pub resolve_endpoint_idem :
    (repo repo' raw : String)
    → IsRepo repo
    → resolve_endpoint repo' (resolve_endpoint repo raw) ≡ resolve_endpoint repo raw
resolve_endpoint_idem repo repo' raw h =
    rw (resolve_endpoint_of repo raw (parse_ref raw) refl)
      (resolve_parsed_idem repo repo' raw (parse_ref raw) h refl)
