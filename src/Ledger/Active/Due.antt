-- ===== src/Ledger/Active/Due.antt =====
-- Which records the sweep `expire_due` (protoprompt/ledger/sqlite.py) takes to be due.
use protoprompt.Prelude.{◌≡◌, ◌<◌, ◌≢◌, true, false, not, some, Text, arith}
use protoprompt.Ledger.{Time, time_ltb, text_micro, stamp_leb, MemoryRow}
use protoprompt.Ledger.Load.{has_ended}
use protoprompt.Ledger.Active.{is_open, is_due}

-- In different seconds the texts of two instants compare as the instants do.
stamp_leb-apart : (a b : Time) → a.second ≢ b.second → stamp_leb a b ≡ not (time_ltb b a)
unfolding stamp_leb time_ltb
stamp_leb-apart a b apart = ground (arith, apart)

stamp_leb-whole :
    (a b : Time)
    → a.micro ≡ 0
    → b.second ≡ a.second
    → 0 < b.micro
    → b.micro < 1000000
    → stamp_leb a b ≡ false
unfolding stamp_leb text_micro
stamp_leb-whole a b whole same later real = ground (arith, whole, same, later, real)

module _ {F : Type 0} where
  -- An open record whose validity ended, or will end, in another second than that of the sweep is
  -- due exactly if it has ended.
  is_due-apart :
      (identity : Text) (row : MemoryRow F) (end now : Time)
      → row.valid_until ≡ some end
      → is_open row.state ≡ true
      → end.second ≢ now.second
      → is_due now (identity, row) ≡ has_ended (some end) now
  unfolding is_due
  is_due-apart identity row end now until opened apart =
      ground (arith, until, opened, stamp_leb-apart end now apart)

  -- An open record whose validity ended at a whole second is not due at any later instant of that
  -- second, although it has ended, since the texts of the two instants are compared.
  pub is_due-missed :
      (identity : Text) (row : MemoryRow F) (end now : Time)
      → row.valid_until ≡ some end
      → is_open row.state ≡ true
      → end.micro ≡ 0
      → now.second ≡ end.second
      → 0 < now.micro
      → now.micro < 1000000
      → (is_due now (identity, row) ≡ false) × (has_ended (some end) now ≡ true)
  unfolding is_due time_ltb
  is_due-missed identity row end now until opened whole same later real = (
    ground (arith, until, opened, stamp_leb-whole end now whole same later real),
    ground (arith, whole, same, later),
  )
