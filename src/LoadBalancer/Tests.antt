-- ===== src/LoadBalancer/Tests.antt =====
-- Runs of the queue, and its theorem at a concrete input.
use network_programming_c.Prelude.{◌≡◌, refl, none, some, ◌>>=◌, [], ◌∷◌}
use network_programming_c.LoadBalancer.{
  create_queue, push, push_all, shift_queue, print_queue, dispatch, balance,
}
use network_programming_c.LoadBalancer.Dispatch.{balance_twice}

balance_twice_example : balance 2 7 (8 ∷ 9 ∷ []) ≡ some (7 ∷ 7 ∷ [])
balance_twice_example = balance_twice 7 8 (9 ∷ [])

print_queue_test :
    (push_all (create_queue [] 7).0 1 (8 ∷ 9 ∷ []) >>= λ (m, head). print_queue 3 m head)
    ≡ some (9 ∷ 8 ∷ 7 ∷ [])
unfolding push_all print_queue create_queue push
print_queue_test = refl

-- With a single child the parent follows a NULL pointer in its first round.
alone_test : balance 1 7 [] ≡ none
unfolding balance push_all create_queue dispatch shift_queue
alone_test = refl
