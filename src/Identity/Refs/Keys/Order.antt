-- ===== src/Identity/Refs/Keys/Order.antt =====
-- The lookup keys come by tier, and within a tier in the order of the references.
use ai_de.Common.{
  ℕ, ◌≤◌, String, str_eq, str_eq_iff, Bool, not, ◌&&◌, ◌||◌, map, if_elim, ap, sym, subst, false,
  ◌∙◌, ◌≡◌, refl, inl, inr, List, [], ◌∷◌, arith, filter, All, leb, ◌==◌, Bool-cases,
}
use ai_de.Identity.Refs.{ExternalRef, Normalizers, normalize_external_refs}
use ai_de.Identity.Refs.Keys.{
  DeterministicKey, tier_of_ref, keys_of, insert_key, sort_keys, deterministic_keys,
}

abbrev pub IsSorted : List DeterministicKey → Type 0
IsSorted [] = Unit
IsSorted (k ∷ ks) = All (λ x. k.tier ≤ x.tier) ks × IsSorted ks

All-insert_key :
    (t : ℕ) (k : DeterministicKey) (ks : List DeterministicKey)
    → t ≤ k.tier
    → All (λ x. t ≤ x.tier) ks
    → All (λ x. t ≤ x.tier) (insert_key k ks)
unfolding insert_key
All-insert_key t k [] h a = (h, tt)
All-insert_key t k (x ∷ xs) h a = elim (Bool-cases (leb k.tier x.tier)) [
  | inl e ↦ rw e (h, a)
  | inr e ↦ rw e (a.0, All-insert_key t k xs h a.1)
]

All-weaken :
    (t u : ℕ) (ks : List DeterministicKey)
    → t ≤ u
    → All (λ x. u ≤ x.tier) ks
    → All (λ x. t ≤ x.tier) ks
All-weaken t u [] h a = tt
All-weaken t u (x ∷ xs) h a = (omega (arith, h, a.0), All-weaken t u xs h a.1)

insert_key-IsSorted :
    (k : DeterministicKey) (ks : List DeterministicKey) → IsSorted ks → IsSorted (insert_key k ks)
unfolding insert_key
insert_key-IsSorted k [] s = (tt, tt)
insert_key-IsSorted k (x ∷ xs) s = elim (Bool-cases (leb k.tier x.tier)) [
  | inl e ↦ rw e ((ground (arith, e), All-weaken k.tier x.tier xs (ground (arith, e)) s.0), s)
  | inr e ↦ rw e (All-insert_key x.tier k xs (ground (arith, e)) s.0, insert_key-IsSorted k xs s.1)
]

sort_keys-IsSorted : (ks : List DeterministicKey) → IsSorted (sort_keys ks)
unfolding sort_keys
sort_keys-IsSorted [] = tt
sort_keys-IsSorted (k ∷ ks) = insert_key-IsSorted k (sort_keys ks) (sort_keys-IsSorted ks)

-- The keys of one tier.
abbrev pub of_tier : ℕ → List DeterministicKey → List DeterministicKey
of_tier t ks = filter (λ k. k.tier == t) ks

of_tier-insert_key :
    (t : ℕ) (k : DeterministicKey) (ks : List DeterministicKey)
    → of_tier t (insert_key k ks) ≡ of_tier t (k ∷ ks)
unfolding insert_key
of_tier-insert_key t k [] = refl
of_tier-insert_key t k (x ∷ xs) = ground (arith, of_tier-insert_key t k xs)

of_tier-sort_keys : (t : ℕ) (ks : List DeterministicKey) → of_tier t (sort_keys ks) ≡ of_tier t ks
unfolding sort_keys
of_tier-sort_keys t [] = refl
of_tier-sort_keys t (k ∷ ks) =
    ground (arith, of_tier-insert_key t k (sort_keys ks), of_tier-sort_keys t ks)

-- The references of the keys of one tier.
abbrev pub refs_of_tier : ℕ → List DeterministicKey → List ExternalRef
refs_of_tier t ks = map (λ (k : DeterministicKey). k.ref) (of_tier t ks)

-- A reference of a system of origin, not one of the identity sentinels.
abbrev pub is_system : ExternalRef → Bool
is_system r = not (
    str_eq r.connector "fde:email"
    || (str_eq r.connector "fde:sso" || str_eq r.connector "fde:domain"))

-- A text is not two texts.
one_text : (s a b : String) → str_eq a b ≡ false → (str_eq s a && str_eq s b) ≡ false
one_text s a b h = elim (Bool-cases (str_eq s a)) [
  | inl e ↦
      let other = subst (λ x. str_eq x b ≡ false) (sym ((str_eq_iff s a).0 e)) h in
      ground (arith, other)
  | inr e ↦ ground (arith, e)
]

refs-tier1 :
    (type : String) (refs : List ExternalRef)
    → refs_of_tier 1 (keys_of type refs) ≡ filter is_system refs
unfolding keys_of tier_of_ref
refs-tier1 type [] = refl
refs-tier1 type (r ∷ rs) = ground (arith, refs-tier1 type rs)

refs-tier2 :
    (type : String) (refs : List ExternalRef)
    → refs_of_tier 2 (keys_of type refs) ≡ filter (λ r. str_eq r.connector "fde:email") refs
unfolding keys_of tier_of_ref
refs-tier2 type [] = refl
refs-tier2 type (r ∷ rs) = ground (arith, refs-tier2 type rs)

refs-tier3 :
    (type : String) (refs : List ExternalRef)
    → refs_of_tier 3 (keys_of type refs) ≡ filter (λ r. str_eq r.connector "fde:sso") refs
unfolding keys_of tier_of_ref
refs-tier3 type [] = refl
refs-tier3 type (r ∷ rs) =
    ground (arith, one_text r.connector "fde:email" "fde:sso" refl, refs-tier3 type rs)

refs-tier4 :
    (type : String) (refs : List ExternalRef)
    → refs_of_tier 4 (keys_of type refs)
      ≡ filter (λ r. str_eq type "organization" && str_eq r.connector "fde:domain") refs
unfolding keys_of tier_of_ref
refs-tier4 type [] = refl
refs-tier4 type (r ∷ rs) = ground (
  arith,
  one_text r.connector "fde:email" "fde:domain" refl,
  one_text r.connector "fde:sso" "fde:domain" refl,
  refs-tier4 type rs,
)

abbrev IsTier : DeterministicKey → Type 0
IsTier k = (1 ≤ k.tier) × (k.tier ≤ 4)

keys_of-IsTier : (type : String) (refs : List ExternalRef) → All IsTier (keys_of type refs)
unfolding keys_of tier_of_ref
keys_of-IsTier type [] = tt
keys_of-IsTier type (r ∷ rs) = ground (arith, keys_of-IsTier type rs)

insert_key-IsTier :
    (k : DeterministicKey) (ks : List DeterministicKey)
    → IsTier k
    → All IsTier ks
    → All IsTier (insert_key k ks)
unfolding insert_key
insert_key-IsTier k [] h a = (h, tt)
insert_key-IsTier k (x ∷ xs) h a =
    if_elim (All IsTier) (leb k.tier x.tier) (λ q. (h, a))
      (λ q. (a.0, insert_key-IsTier k xs h a.1))

sort_keys-IsTier : (ks : List DeterministicKey) → All IsTier ks → All IsTier (sort_keys ks)
unfolding sort_keys
sort_keys-IsTier [] a = tt
sort_keys-IsTier (k ∷ ks) a = insert_key-IsTier k (sort_keys ks) a.0 (sort_keys-IsTier ks a.1)

-- The lookup keys of an entity come in the order of their tiers, which are 1 to 4; tier 1 holds the
-- normalized references of systems of origin, tier 2 those of e-mail addresses, tier 3 those of
-- single sign-on, and tier 4 those of domains where the entity is an organisation, each in the
-- order of the references.
pub deterministic_keys_lem :
    (n : Normalizers) (type : String) (refs : List ExternalRef)
    → let keys = deterministic_keys n type refs in
      let given = normalize_external_refs n refs in
      IsSorted keys
      × (refs_of_tier 1 keys ≡ filter is_system given)
      × (refs_of_tier 2 keys ≡ filter (λ r. str_eq r.connector "fde:email") given)
      × (refs_of_tier 3 keys ≡ filter (λ r. str_eq r.connector "fde:sso") given)
      × (refs_of_tier 4 keys
          ≡ filter (λ r. str_eq type "organization" && str_eq r.connector "fde:domain") given)
      × All (λ k. (1 ≤ k.tier) × (k.tier ≤ 4)) keys
unfolding deterministic_keys
deterministic_keys_lem n type refs =
    let given = normalize_external_refs n refs in
    let keys = keys_of type given in
    let kept = λ (t : ℕ). ap (map (λ (k : DeterministicKey). k.ref)) (of_tier-sort_keys t keys) in
    (
      sort_keys-IsSorted keys,
      kept 1 ∙ refs-tier1 type given,
      kept 2 ∙ refs-tier2 type given,
      kept 3 ∙ refs-tier3 type given,
      kept 4 ∙ refs-tier4 type given,
      sort_keys-IsTier keys (keys_of-IsTier type given),
    )
