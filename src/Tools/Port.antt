-- ===== src/Tools/Port.antt =====
-- What FindFreePort of tools/port.go returns.
use node_nats.Prelude.{
  ℕ, zero, suc, ◌+◌, ◌-◌, ◌≤◌, ◌<◌, ◌≡◌, inl, inr, Bool, true, false, arith, Bool-cases,
}
use node_nats.Tools.{find_from, find_free_port}

-- The first free port from a start on, or the first number that is no port.
pub record IsFirstFree (is_free : ℕ → Bool) (start port : ℕ) : Type 0 where
  pub from_start : start ≤ port
  pub in_range : port ≤ 65536
  pub free : port < 65536 → is_free port ≡ true
  pub first : (q : ℕ) → start ≤ q → q < port → is_free q ≡ false

find_from-IsFirstFree :
    (is_free : ℕ → Bool) (fuel port : ℕ)
    → port + fuel ≡ 65536
    → IsFirstFree is_free port (find_from is_free fuel port)
unfolding find_from
find_from-IsFirstFree is_free zero port e = record {
  from_start = omega arith;
  in_range = omega arith;
  free = λ h. absurd (omega (arith, e, h));
  first = λ q h k. absurd (omega (arith, h, k));
}
find_from-IsFirstFree is_free (suc fuel) port e = elim (Bool-cases (is_free port)) [
  | inl free ↦
      let stops : find_from is_free (suc fuel) port ≡ port = ground (arith, e, free) in
      rw stops (record {
        from_start = omega arith;
        in_range = omega (arith, e);
        free = λ h. free;
        first = λ q h k. absurd (omega (arith, h, k));
      })
  | inr taken ↦
      let ih = find_from-IsFirstFree is_free fuel (port + 1) (omega (arith, e)) in
      let goes_on : find_from is_free (suc fuel) port ≡ find_from is_free fuel (port + 1) =
        ground (arith, e, taken) in
      rw goes_on (record {
        from_start = omega (arith, ih.from_start);
        in_range = ih.in_range;
        free = ih.free;
        first = λ q h k. ground (arith, ih.first q, taken, h, k);
      })
]

-- FindFreePort ends, and returns the first free port from the drawn one on, which is at least 10000; where none of them is
-- free, it returns 65536, which is no port.
pub find_free_port-IsFirstFree :
    (is_free : ℕ → Bool) (drawn : ℕ)
    → drawn < 50000
    → IsFirstFree is_free (drawn + 10000) (find_free_port is_free drawn)
unfolding find_free_port
find_free_port-IsFirstFree is_free drawn h =
    find_from-IsFirstFree is_free (65536 - (drawn + 10000)) (drawn + 10000) (omega (arith, h))
