-- ===== src/Tenancy/Tests.antt =====
-- Examples: one tenant with an active engagement whose key the provider for tests wrapped, and a
-- break-glass grant that waits for its approval. Base 64 is a code that writes a byte as a character.
use ai_de.Common.{
  ℕ, zero, suc, ◌+◌, ◌==◌, String, ◌≡◌, refl, true, false, none, some, List, [], ◌∷◌, ◌++◌, arith,
  inr, Memᴰ, str_eq_iff, ◌&&◌, any, is_some, if◌then◌else◌,
}
use Prim.Native.Char.{code}
use ai_de.Keys.Fake.{
  marker, rewrap_dek, unwrap_dek, bytes_equal, fake_key_provider, fake_key_provider-KeyProviderLaws,
}
use ai_de.Tenancy.{
  active, EngagementRow, GrantRow, Db, ok, err, pure, engagement_shredded, engagement_not_found,
}
use ai_de.Tenancy.Engagement.{
  Base64, EngagementCipher, select_engagement, with_engagement, shred_engagement,
  rotate_engagement_key, open_row, live_dek, rotation_reason,
}
use ai_de.Tenancy.Engagement.Shred.{
  shred_entry, shredded_row, shred_engagement_lem, with_engagement-shred_engagement,
}
use ai_de.Tenancy.Engagement.Isolation.{select_engagement_others}
use ai_de.Tenancy.Engagement.Rotate.{Base64Laws, rotate_engagement_key_keeps}
use ai_de.Tenancy.BreakGlass.{
  assert_second_person, compute_expires_at, approve_pending, approve_break_glass,
  assert_break_glass, revoke_break_glass, is_grant, is_active,
}
use ai_de.Tenancy.BreakGlass.Outcomes.{approved_db, approve_break_glass_lem}
use ai_de.Tenancy.BreakGlass.SecondPerson.{IsValid, Step, Steps, Opens, assert_break_glass-Opens}
use ai_de.Tenancy.BreakGlass.Window.{
  approve_break_glass-assert_break_glass, revoke_break_glass-is_active,
}

-- n ones and a zero
ones : ℕ → String → String
ones zero s = String.◌∷◌ "0" s
ones (suc n) s = String.◌∷◌ "1" (ones n s)

encode : List ℕ → String
unfolding ones
encode [] = ""
encode (x ∷ xs) = ones x (encode xs)

decode_from : ℕ → String → List ℕ
decode_from k String.[] = []
decode_from k (String.◌∷◌ c s) =
    let more = decode_from (suc k) s in
    let rest = k ∷ decode_from 0 s in if code c == 49 then more else rest

abbrev unary : Base64
unary = record { encode = encode; decode = decode_from 0 }

decode_from-ones : (k n : ℕ) (s : String) → decode_from k (ones n s) ≡ (n + k) ∷ decode_from 0 s
unfolding decode_from ones
decode_from-ones k zero s = ground arith
decode_from-ones k (suc n) s = ground (arith, decode_from-ones (suc k) n s)

decode-encode : (bytes : List ℕ) → decode_from 0 (encode bytes) ≡ bytes
unfolding encode decode_from
decode-encode [] = refl
decode-encode (x ∷ xs) = ground (arith, decode_from-ones 0 x (encode xs), decode-encode xs)

unary-Base64Laws : Base64Laws unary
unfolding decode_from
unary-Base64Laws = record { decode-encode = decode-encode; decode-nil = refl }

abbrev dek : List ℕ
dek =
    1 ∷ 2 ∷ 3 ∷ 4 ∷ 5 ∷ 6 ∷ 7 ∷ 8 ∷ 9 ∷ 10 ∷ 11 ∷ 12 ∷ 13 ∷ 14 ∷ 15 ∷ 16 ∷ 1 ∷ 2 ∷ 3 ∷ 4 ∷ 5 ∷ 6 ∷ 7
    ∷ 8 ∷ 9 ∷ 10 ∷ 11 ∷ 12 ∷ 13 ∷ 14 ∷ 15 ∷ 16 ∷ []

abbrev row : String → EngagementRow
row id = record {
  tenant_id = "t1";
  id = id;
  status = active;
  wrapped_dek = some (encode (marker ++ dek));
  byok_key_arn = none;
  updated_at = 0;
}

abbrev pending : GrantRow
pending = record {
  id = "g1";
  tenant_id = "t1";
  engagement_id = "e1";
  requested_by = "alice";
  approved_by = none;
  reason = "outage";
  ttl_minutes = 60;
  requested_at = 0;
  approved_at = none;
  expires_at = none;
  revoked_at = none;
}

abbrev db : Db
db = record {
  tenants = record { id = "t1"; cmk_key_ref = "cmk" } ∷ [];
  engagements = row "e1" ∷ row "e2" ∷ [];
  grants = pending ∷ [];
  access_log = [];
}

shred_engagement_lem_example :
    let (result, after) = shred_engagement 5 "t1" "e1" "alice" "left" db in
    (result ≡ ok true)
    × (after.engagements ≡ shredded_row 5 (row "e1") ∷ row "e2" ∷ [])
    × (after.access_log ≡ shred_entry "t1" "e1" "alice" "left" ∷ [])
    × ((after.tenants ≡ db.tenants) × (after.grants ≡ db.grants))
    × (shred_engagement 9 "t1" "e1" "bob" "again" after ≡ (ok false, after))
shred_engagement_lem_example = shred_engagement_lem 5 9 "t1" "e1" "alice" "bob" "left" "again" db

with_engagement-shred_engagement_example :
    let after = (shred_engagement 5 "t1" "e1" "alice" "left" db).1 in
    with_engagement fake_key_provider unary "t1" "e1" pure after ≡ (
      err (
          if is_some (select_engagement "t1" "e1" db)
          then engagement_shredded "e1"
          else engagement_not_found "e1"),
      after,
    )
with_engagement-shred_engagement_example =
    with_engagement-shred_engagement 5 "t1" "e1" "alice" "left" db fake_key_provider unary pure

abbrev rotated : Db
rotated = (rotate_engagement_key fake_key_provider unary 7 "t1" "e1" "alice" (some "customer") db).1

rotate_ok :
    rotate_engagement_key fake_key_provider unary 7 "t1" "e1" "alice" (some "customer") db
    ≡ (ok tt, rotated)
unfolding rotate_engagement_key open_row select_engagement live_dek rewrap_dek unwrap_dek
    bytes_equal encode ones decode_from rotation_reason
rotate_ok = refl

rotate_engagement_key_keeps_example :
    (cipher : EngagementCipher) × (with_engagement fake_key_provider unary "t1" "e1" pure db
      ≡ (ok cipher, db))
    × (with_engagement fake_key_provider unary "t1" "e1" pure rotated ≡ (ok cipher, rotated))
rotate_engagement_key_keeps_example =
    rotate_engagement_key_keeps fake_key_provider fake_key_provider-KeyProviderLaws unary
      unary-Base64Laws 7 "t1" "e1" "alice" (some "customer") db rotated rotate_ok

select_engagement_others_example :
    (select_engagement "t1" "e2" (shred_engagement 7 "t1" "e1" "alice" "left" db).1
      ≡ select_engagement "t1" "e2" db)
    × (select_engagement "t1" "e2" rotated ≡ select_engagement "t1" "e2" db)
select_engagement_others_example =
    select_engagement_others "t1" "e1" "t1" "e2" (inr (λ q. cc ((str_eq_iff "e1" "e2").1 q))) 7
      "alice" "left" (some "customer") fake_key_provider unary db

approve_break_glass_lem_example :
    approve_break_glass 10 11 "t1" "g1" "bob" db
    ≡ (ok tt, approved_db 10 11 "t1" "g1" "bob" pending db)
approve_break_glass_lem_example = approve_break_glass_lem 10 11 "t1" "g1" "bob" db

db-IsValid : IsValid db
db-IsValid = ((refl, tt), (λ a. cc a, tt))

abbrev approved : Db
approved = (approve_break_glass 10 11 "t1" "g1" "bob" db).1

history : Steps db approved
history = Steps.next Steps.done (Step.approve 10 11 "t1" "g1" "bob" refl)

assert_ok : assert_break_glass 100 "t1" "e1" approved ≡ (ok tt, approved)
unfolding approve_break_glass assert_second_person approve_pending compute_expires_at
    assert_break_glass
assert_ok = refl

assert_break_glass-Opens_example : (g : GrantRow) × Memᴰ g approved.grants × Opens 100 "t1" "e1" g
assert_break_glass-Opens_example =
    assert_break_glass-Opens 100 "t1" "e1" db-IsValid history assert_ok

approve_break_glass-assert_break_glass_example :
    assert_break_glass 100 "t1" "e1" (approve_break_glass 10 11 "t1" "g1" "bob" db).1
    ≡ (ok tt, approved_db 10 11 "t1" "g1" "bob" pending db)
approve_break_glass-assert_break_glass_example =
    approve_break_glass-assert_break_glass 10 11 100 "t1" "g1" "bob" pending db refl
      (λ q. cc ((str_eq_iff "alice" "bob").1 q)) refl refl (omega arith)

revoke_break_glass-is_active_example :
    any
      (λ g. is_grant "t1" "g1" g && is_active 100 "t1" "e1" g)
      (revoke_break_glass 20 "t1" "g1" "bob" approved).1.grants
    ≡ false
revoke_break_glass-is_active_example =
    revoke_break_glass-is_active 20 100 "t1" "g1" "bob" "e1" approved
