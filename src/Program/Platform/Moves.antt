-- ===== src/Program/Platform/Moves.antt =====
-- What a move of lamports does to each balance.
use enclavekit_anchor.Common.{
  ℕ, ◌+◌, ◌-◌, ◌≤◌, Bytes, bytes_eq_refl, bytes_eq_ne, ◌≡◌, ◌≢◌, sym, arith,
}
use enclavekit_anchor.Program.Platform.{Bank, move}

module _ (from to : Bytes) (n : ℕ) (b : Bank) where
  pub move_sender : from ≢ to → move from to n b from ≡ b from - n
  unfolding move
  move_sender apart = ground (arith, bytes_eq_refl from, bytes_eq_ne from to apart)

  pub move_receiver : from ≢ to → move from to n b to ≡ b to + n
  unfolding move
  move_receiver apart = ground (arith, bytes_eq_refl to, bytes_eq_ne to from (λ e. apart (sym e)))

  pub move_others : (k : Bytes) → k ≢ from → k ≢ to → move from to n b k ≡ b k
  unfolding move
  move_others k nf nt = ground (arith, bytes_eq_ne k from nf, bytes_eq_ne k to nt)

  -- Who is not the sender gains at most what is moved.
  pub move-le : (k : Bytes) → k ≢ from → move from to n b k ≤ b k + n
  unfolding move
  move-le k nf = ground (arith, bytes_eq_ne k from nf)

  -- Who is not the sender loses nothing.
  pub le-move : (k : Bytes) → k ≢ from → b k ≤ move from to n b k
  unfolding move
  le-move k nf = ground (arith, bytes_eq_ne k from nf)

  -- Nobody loses more than what is moved.
  pub fall-move : (k : Bytes) → b k ≤ move from to n b k + n
  unfolding move
  fall-move k = ground arith
