-- ===== src/AuthCodes/Cleanup/Termination.antt =====
-- When the cleanup goroutine of stores.go returns.
use kite_mcp_oauth.Prelude.{
  ℕ, suc, ◌+◌, ◌≤◌, String, Bool, true, false, ◌≡◌, refl, ◌⊎◌, inl, inr, Option, none, some, ◌∙◌,
  arith, if◌then◌else◌,
}
use kite_mcp_oauth.AuthCodes.{
  AuthCodeEntry, AuthCodeStore, closed, close, generate, consume, cleanup_tick,
}
use kite_mcp_oauth.AuthCodes.Cleanup.{
  Phase, waiting, returned, Cleanup, Case, receives_done, receives_tick, select, Run, starts, fires,
  generates, consumes, takes_turn,
}

-- The turns that are left: one for a tick, and one to return.
abbrev turns_left : Phase → Bool → ℕ
turns_left waiting tick = if tick then 2 else 1
turns_left returned tick = 0

turns_left-fires : (p : Phase) (tick : Bool) → turns_left p true ≤ suc (turns_left p tick)
turns_left-fires waiting true = omega arith
turns_left-fires waiting false = omega arith
turns_left-fires returned tick = omega arith

turns_left-start : (p : Phase) (tick : Bool) → turns_left p tick ≤ 2
turns_left-start waiting true = omega arith
turns_left-start waiting false = omega arith
turns_left-start returned tick = omega arith

select-turns_left :
    (k : Case) (now : ℕ) (s : AuthCodeStore) (tick : Bool) (p : Phase) (e : Cleanup)
    → select k now (record { store = s; tick = tick; phase = p }) ≡ some e
    → suc (turns_left e.phase e.tick) ≤ turns_left p tick
unfolding select
select-turns_left receives_done now s true waiting e h = ground arith
select-turns_left receives_done now s false waiting e h = ground arith
select-turns_left receives_done now s tick returned e h = cc h
select-turns_left receives_tick now s true waiting e h = ground arith
select-turns_left receives_tick now s false waiting e h = cc h
select-turns_left receives_tick now s tick returned e h = cc h

-- Nothing opens the channel again.
select-done :
    (k : Case) (now : ℕ) (d e : Cleanup) → select k now d ≡ some e → e.store.done ≡ d.store.done
unfolding select cleanup_tick
select-done receives_done now d e h = ground arith
select-done receives_tick now d e h = ground arith

generate-done :
    (code : Option String) (now : ℕ) (entry : AuthCodeEntry) (s : AuthCodeStore)
    → (generate code now entry s).1.done ≡ s.done
unfolding generate
generate-done none now entry s = refl
generate-done (some code) now entry s = ground arith

consume-done : (code : String) (now : ℕ) (s : AuthCodeStore) → (consume code now s).1.done ≡ s.done
unfolding consume
consume-done code now s = ground arith

module _ (c : Cleanup) where
  Run-done : (fired turns : ℕ) (d : Cleanup) → Run c fired turns d → d.store.done ≡ c.store.done
  Run-done f n d starts = refl
  Run-done f n _ (fires f0 turns d r) = Run-done f0 turns d r
  Run-done f n _ (generates fired turns d code now entry r) =
      generate-done code now entry d.store ∙ Run-done fired turns d r
  Run-done f n _ (consumes fired turns d code now r) =
      consume-done code now d.store ∙ Run-done fired turns d r
  Run-done f n _ (takes_turn fired turns d e k now r h) =
      select-done k now d e h ∙ Run-done fired turns d r

  Run-turns :
      (fired turns : ℕ) (d : Cleanup)
      → Run c fired turns d
      → turns + turns_left d.phase d.tick ≤ fired + 2
  Run-turns f n d starts = omega (arith, turns_left-start c.phase c.tick)
  Run-turns f n _ (fires f0 turns d r) =
      omega (arith, Run-turns f0 turns d r, turns_left-fires d.phase d.tick)
  Run-turns f n _ (generates fired turns d code now entry r) = Run-turns fired turns d r
  Run-turns f n _ (consumes fired turns d code now r) = Run-turns fired turns d r
  Run-turns f n _ (takes_turn fired turns d e k now r h) =
      omega (arith, Run-turns fired turns d r, select-turns_left k now d.store d.tick d.phase e h)

close-done : (s t : AuthCodeStore) → s.close_once ≡ false → close s ≡ some t → t.done ≡ closed
unfolding close
close-done s t first e = ground arith

can_return :
    (s : AuthCodeStore) (tick : Bool) (p : Phase) (now : ℕ)
    → s.done ≡ closed
    → (p ≡ returned)
      ⊎ (select receives_done now (record { store = s; tick = tick; phase = p })
          ≡ some (record { store = s; tick = tick; phase = returned }))
unfolding select
can_return s tick waiting now h = inr (rw h refl)
can_return s tick returned now h = inl refl

-- After the first `Close` the goroutine of the cleanup ends, whatever the ticker and the other
-- callers of the store do: it takes at most two turns, and one more for each time that the ticker
-- fires, and as long as it has not returned, the turn in which it returns is open to it.
pub close_ends_cleanup :
    (c d : Cleanup) (s : AuthCodeStore) (fired turns now : ℕ)
    → c.store.close_once ≡ false
    → close c.store ≡ some s
    → Run (record c { store = s }) fired turns d
    → (turns ≤ fired + 2)
      × ((d.phase ≡ returned) ⊎ (select receives_done now d ≡ some (record d { phase = returned })))
close_ends_cleanup c d s fired turns now first e r = (
  omega (arith, Run-turns (record c { store = s }) fired turns d r),
  can_return d.store d.tick d.phase now
      (Run-done (record c { store = s }) fired turns d r ∙ close-done c.store s first e),
)
