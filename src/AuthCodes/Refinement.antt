-- ===== src/AuthCodes/Refinement.antt =====
-- The store of stores.go implements its specification: no caller can tell it, its bound, its cleanup
-- and the entries that expire in it from tickets that are redeemed once and in time.
use kite_mcp_oauth.Prelude.{
  ℕ, ◌≤◌, String, ◌≡◌, ◌≢◌, refl, sym, ◌∙◌, subst, Option, none, some, List, [], ◌∷◌, ok, err,
  keep_unless, length, All, ◌==◌, arith, eq_iff, lookup, lookup-delete_if, Dict, IsDict, inl, inr,
  Option-cases, Bool-cases, leb, true, false,
}
use kite_mcp_oauth.AuthCodes.{
  AuthCodeEntry, AuthCodeStore, auth_code_store_full, max_auth_codes, new_auth_code_store, stamp,
  is_expired, generate, consume, cleanup_tick,
}
use kite_mcp_oauth.AuthCodes.Capacity.{IsBounded, new_auth_code_store-IsBounded}
use kite_mcp_oauth.AuthCodes.Redemption.{consume-eq-redeemable, lookup-consume, lookup-generate}
use kite_mcp_oauth.AuthCodes.Schedule.{Call, generates, consumes, ticks, step, step-IsBounded}
use kite_mcp_oauth.AuthCodes.Specification.{
  Tickets, assign, AreDistinct, redeemed, Admits, issues, refuses, fails, redeems, sweeps, Accepts,
  done, next, answer, answers, clock_after, IsChronological,
}

-- The entries are tickets, and a ticket that is not among them has expired by now.
record Tracks (now : ℕ) (s : AuthCodeStore) (tickets : Tickets) : Type 0 where
  held :
      (code : String) (e : AuthCodeEntry) → lookup code s.entries ≡ some e → tickets code ≡ some e
  missed :
      (code : String)
      → lookup code s.entries ≡ none
      → keep_unless (is_expired now) (tickets code) ≡ none

-- What has expired stays expired.
expired_later :
    (now later : ℕ) (o : Option AuthCodeEntry)
    → now ≤ later
    → keep_unless (is_expired now) o ≡ none
    → keep_unless (is_expired later) o ≡ none
unfolding is_expired
expired_later now later none l h = refl
expired_later now later (some e) l h = ground arith

module _ (now : ℕ) (s : AuthCodeStore) (f : Tickets) (tracks : Tracks now s f) where
  Tracks-redeemable :
      (later : ℕ) (code : String)
      → now ≤ later
      → keep_unless (is_expired later) (lookup code s.entries)
        ≡ keep_unless (is_expired later) (f code)
  Tracks-redeemable later code l = elim (Option-cases (lookup code s.entries)) [
    | inl absent ↦ rw absent (sym (expired_later now later (f code) l (tracks.missed code absent)))
    | inr (e, there) ↦ rw there (rw (tracks.held code e there) refl)
  ]

  Tracks-consume :
      (code : String) (later : ℕ)
      → now ≤ later
      → Tracks later (consume code later s).1 (assign code none f)
  Tracks-consume code later l = record {
    held = λ k e h. ground (arith, lookup-consume code k later s, tracks.held k e);
    missed = λ k h. elim (Bool-cases (code == k)) [
      | inl same ↦ rw same refl
      | inr other ↦ rw other (
          expired_later now later (f k) l
            (tracks.missed k (ground (arith, lookup-consume code k later s))))
    ];
  }

  Tracks-cleanup_tick :
      (later : ℕ) → IsDict s.entries → now ≤ later → Tracks later (cleanup_tick later s) f
  unfolding cleanup_tick
  Tracks-cleanup_tick later d l = record {
    held = λ k e h. elim (Option-cases (lookup k s.entries)) [
      | inl absent ↦ ground (arith, lookup-delete_if (is_expired later) k s.entries)
      | inr (x, there) ↦
          ground (arith, lookup-delete_if (is_expired later) k s.entries, tracks.held k x)
    ];
    missed = λ k h.
        sym (Tracks-redeemable later k l)
        ∙ (sym (lookup-delete_if (is_expired later) k s.entries d) ∙ h);
  }

  Tracks-generate :
      (code : String) (at : ℕ) (entry : AuthCodeEntry)
      → leb max_auth_codes (length s.entries) ≡ false
      → Tracks now (generate (some code) at entry s).1 (assign code (some (stamp at entry)) f)
  Tracks-generate code at entry room = record {
    held = λ k e h. ground (arith, lookup-generate code k at entry s, tracks.held k e);
    missed = λ k h. ground (arith, lookup-generate code k at entry s, tracks.missed k);
  }

abbrev keys : Dict AuthCodeEntry → List String
keys [] = []
keys ((code, e) ∷ m) = code ∷ keys m

keys-absent :
    (code : String) (m : Dict AuthCodeEntry) → lookup code m ≡ none → All (λ k. k ≢ code) (keys m)
unfolding lookup
keys-absent code [] h = tt
keys-absent code ((k, e) ∷ m) h = (ground (arith, eq_iff k code), keys-absent code m (ground arith))

keys-AreDistinct : (m : Dict AuthCodeEntry) → IsDict m → AreDistinct (keys m)
keys-AreDistinct [] d = tt
keys-AreDistinct ((k, e) ∷ m) d = (keys-absent k m d.0, keys-AreDistinct m d.1)

length-keys : (m : Dict AuthCodeEntry) → length (keys m) ≡ length m
length-keys [] = refl
length-keys ((k, e) ∷ m) = omega (arith, length-keys m)

-- The bindings of a dictionary are found in a larger one.
keys-pending :
    (f : Tickets) (m : Dict AuthCodeEntry)
    → IsDict m
    → ((code : String) (e : AuthCodeEntry) → lookup code m ≡ some e → f code ≡ some e)
    → All (λ k. f k ≢ none) (keys m)
unfolding lookup
keys-pending f [] d held = tt
keys-pending f ((k, x) ∷ m) d held = (
  (λ gone. cc (held k x (ground (arith, eq_iff k k)), gone)),
  keys-pending f m d.1 (λ code e h. held code e (ground (arith, eq_iff k code))),
)

module _ (code : String) (at : ℕ) (entry : AuthCodeEntry) (s : AuthCodeStore) where
  generate_full :
      leb max_auth_codes (length s.entries) ≡ true
      → generate (some code) at entry s ≡ (err auth_code_store_full, s)
  unfolding generate
  generate_full full = ground arith

  generate_issued :
      leb max_auth_codes (length s.entries) ≡ false → (generate (some code) at entry s).0 ≡ ok code
  unfolding generate
  generate_issued room = ground arith

-- One call: the tickets admit what the store answers, and the store tracks the tickets after it.
module _ (now : ℕ) (s : AuthCodeStore) (f : Tickets) (tracks : Tracks now s f)
    (b : IsBounded s) where
  generate_refines :
      (code : String) (at : ℕ) (entry : AuthCodeEntry)
      → let c = generates (some code) at entry in
        (g : Tickets) × Admits f c (answer c s) g × Tracks now (step c s) g
  unfolding answer step
  generate_refines code at entry = elim (Bool-cases (leb max_auth_codes (length s.entries))) [
    | inl full ↦ (
      f,
      rw (generate_full code at entry s full) (
          refuses code at entry (keys s.entries) (keys-AreDistinct s.entries b.distinct)
            (keys-pending f s.entries b.distinct tracks.held)
            (ground (arith, length-keys s.entries, b.within))),
      rw (generate_full code at entry s full, step) tracks,
    )
    | inr room ↦ (
      assign code (some (stamp at entry)) f,
      rw (generate_issued code at entry s room) (issues code at entry),
      Tracks-generate now s f tracks code at entry room,
    )
  ]

  step_refines :
      (c : Call)
      → now ≤ clock_after now c
      → (g : Tickets) × Admits f c (answer c s) g × Tracks (clock_after now c) (step c s) g
  unfolding answer step
  step_refines (generates none at entry) l =
      (f, unfold generate in fails at entry, unfold generate in tracks)
  step_refines (generates (some code) at entry) l = generate_refines code at entry
  step_refines (consumes code later) l = (
    assign code none f,
    subst (λ o. Admits f (consumes code later) (redeemed o) (assign code none f))
        (sym (Tracks-redeemable now s f tracks later code l)
          ∙ sym (consume-eq-redeemable code later s))
        (redeems code later),
    Tracks-consume now s f tracks code later l,
  )
  step_refines (ticks later) l =
      (f, sweeps later, Tracks-cleanup_tick now s f tracks later b.distinct l)

run_refines :
    (cs : List Call) (now : ℕ) (s : AuthCodeStore) (f : Tickets)
    → Tracks now s f
    → IsBounded s
    → IsChronological now cs
    → Accepts f cs (answers cs s)
unfolding answers
run_refines [] now s f tracks b l = done f
run_refines (c ∷ cs) now s f tracks b l =
    let (g, admits, after) = step_refines now s f tracks b c l.0 in
    next f g c cs (answer c s) (answers cs (step c s)) admits
      (run_refines cs (clock_after now c) (step c s) g after (step-IsBounded c s b) l.1)

-- The store implements its specification: what a new store answers to a schedule of calls, in which
-- the times of Consume and of the cleanup do not go back, is what tickets admit that are handed out
-- stamped with their expiry, are redeemed once and in time, and are refused only while
-- `maxAuthCodes` of them, expired ones among them, were handed out and not redeemed.
pub store_refines :
    (cs : List Call)
    → IsChronological 0 cs
    → Accepts (λ k. none) cs (answers cs new_auth_code_store)
unfolding new_auth_code_store lookup
store_refines cs l =
    run_refines cs 0 new_auth_code_store (λ k. none)
      (record { held = λ code e h. cc h; missed = λ code h. refl }) new_auth_code_store-IsBounded l
