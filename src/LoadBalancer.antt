-- ===== src/LoadBalancer.antt =====
-- Load Balancer/load_balancer.h, the queue of child processes, and the loops of the parent in
-- Load Balancer/load_balancer.c. Memory is the list of what `malloc` has returned, in that order;
-- a pointer is a place in it counted from 1, and 0 is NULL. An access through NULL or to a node
-- that is freed is `none`. The process numbers that `fork` returns are arguments. The signals of
-- the children back to the parent only print a line, and are not modelled.
pub mod Dispatch
mod Tests
use network_programming_c.Prelude.{
  ℕ, zero, suc, ◌+◌, Option, none, some, ◌>>=◌, List, [], ◌∷◌, ◌++◌, length, get_elem?, set,
}

abbrev pub Pointer : Type 0
Pointer = ℕ

pub record Node : Type 0 where
  pub pid : ℕ
  pub rear : Pointer
  pub front : Pointer
  pub prev : Pointer
  pub next : Pointer

abbrev pub Memory : Type 0
Memory = List (Option Node)

abbrev pub load : Memory → Pointer → Option Node
load m zero = none
load m (suc i) = get_elem? m i >>= λ n. n

-- A write to a field of the node at the pointer.
abbrev pub modify : Memory → Pointer → (Node → Node) → Option Memory
modify m zero f = none
modify m (suc i) f = load m (suc i) >>= λ n. some (set m i (some (f n)))

abbrev pub free : Memory → Pointer → Option Memory
free m zero = some m
free m (suc i) = load m (suc i) >>= λ n. some (set m i none)

unfoldable pub create_queue : Memory → ℕ → Memory × Pointer
create_queue m value =
    let head : Pointer = suc (length m) in
    (m ++ some (record { pid = value; rear = head; front = head; prev = 0; next = 0 }) ∷ [], head)

unfoldable pub push : Memory → Pointer → ℕ → Option (Memory × Pointer)
unfolding create_queue
push m zero value = some (create_queue m value)
push m (suc i) value =
    let node : Pointer = suc (length m) in
    load m (suc i) >>= λ h.
    modify
      (m
        ++ some (record { pid = value; rear = node; front = h.front; prev = 0; next = suc i }) ∷ [])
      (suc i) (λ n. record n { prev = node })
    >>= λ m1. some (m1, node)

-- What becomes of the caller's pointer is nothing: `head` is a local variable.
unfoldable pub pop : Memory → Pointer → Option Memory
pop m head = load m head >>= λ h. load m h.front >>= λ t. elim t.prev [
  | zero ↦ free m h.front
  | suc i ↦ modify m (suc i) (λ n. record n { next = 0 }) >>= λ m1.
      modify m1 h.front (λ n. record n { prev = 0 }) >>= λ m2.
      modify m2 head (λ n. record n { front = suc i }) >>= λ m3. free m3 h.front
]

unfoldable pub shift_queue : Memory → Pointer → Option (Memory × Pointer)
shift_queue m head = load m head >>= λ h. load m h.front >>= λ t.
    modify m t.prev (λ n. record n { next = 0 }) >>= λ m1.
    modify m1 head (λ n. record n { front = t.prev }) >>= λ m2.
    modify m2 h.front (λ n. record n { next = h.rear }) >>= λ m3.
    modify m3 h.rear (λ n. record n { prev = h.front }) >>= λ m4.
    modify m4 head (λ n. record n { rear = h.front }) >>= λ m5. some (m5, h.front)

-- The process numbers that are printed, in order; `none` as well where the steps do not suffice.
unfoldable pub print_queue : ℕ → Memory → Pointer → Option (List ℕ)
print_queue steps m zero = some []
print_queue zero m (suc i) = none
print_queue (suc steps) m (suc i) =
    load m (suc i) >>= λ n. print_queue steps m n.next >>= λ pids. some (n.pid ∷ pids)

-- The loop of `main` that fills the queue, behind its first round.
unfoldable pub push_all : Memory → Pointer → List ℕ → Option (Memory × Pointer)
push_all m head [] = some (m, head)
push_all m head (c ∷ cpid) = push m head c >>= λ (m1, head1). push_all m1 head1 cpid

-- The endless loop of `main`, for some rounds: the processes that are signalled.
unfoldable pub dispatch : ℕ → Memory → Pointer → Option (List ℕ)
dispatch zero m head = some []
dispatch (suc rounds) m head = load m head >>= λ h. load m h.front >>= λ t.
    shift_queue m head >>= λ (m1, head1). dispatch rounds m1 head1 >>= λ pids. some (t.pid ∷ pids)

-- `main` from the first `create_queue`, for the children `c ∷ cpid`.
unfoldable pub balance : ℕ → ℕ → List ℕ → Option (List ℕ)
balance rounds c cpid =
    let (m, head) = create_queue [] c in
    push_all m head cpid >>= λ (m1, head1). dispatch rounds m1 head1
