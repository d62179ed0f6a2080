-- ===== src/LoadBalancer/Dispatch.antt =====
-- Load Balancer: the memory behind the writes of the queue, and the first signals of the parent.
use network_programming_c.Prelude.{
  false, ℕ, zero, suc, ◌≤◌, ◌≡◌, ◌≢◌, ◌⊎◌, inl, inr, refl, sym, ap, ◌∙◌, Option, some, List, [],
  ◌∷◌, ◌++◌, length, get_elem?, set, arith, ◌==◌, Bool-cases, ==_iff, subst,
}
use network_programming_c.LoadBalancer.{
  Pointer, Node, Memory, load, modify, create_queue, push, shift_queue, push_all, dispatch, balance,
}

abbrev Alive : Memory → Pointer → Type 0
Alive m p = (n : Node) × (load m p ≡ some n)

set_same :
    (m : Memory) (i : ℕ) (v w : Option Node)
    → get_elem? m i ≡ some w
    → get_elem? (set m i v) i ≡ some v
set_same [] i v w h = cc
set_same (x ∷ m) zero v w h = refl
set_same (x ∷ m) (suc i) v w h = set_same m i v w h

set_other :
    (m : Memory) (i j : ℕ) (v : Option Node) → j ≢ i → get_elem? (set m i v) j ≡ get_elem? m j
set_other [] i j v h = refl
set_other (x ∷ m) zero zero v h = absurd (h refl)
set_other (x ∷ m) zero (suc j) v h = refl
set_other (x ∷ m) (suc i) zero v h = refl
set_other (x ∷ m) (suc i) (suc j) v h = set_other m i j v (λ e. h (ap suc e))

load-place :
    (m : Memory) (i : ℕ) (n : Node) → load m (suc i) ≡ some n → get_elem? m i ≡ some (some n)
load-place [] i n h = cc
load-place (x ∷ m) zero n h = rw (h) refl
load-place (x ∷ m) (suc i) n h = load-place m i n h

-- What a write to the node does.
modify_lem :
    (m : Memory) (p : Pointer) (f : Node → Node) (n : Node)
    → load m p ≡ some n
    → (m1 : Memory) × ((modify m p f ≡ some m1)
        × ((load m1 p ≡ some (f n)) × ((q : Pointer) → q ≢ p → load m1 q ≡ load m q)))
modify_lem m zero f n h = cc
modify_lem m (suc i) f n h =
    let k : modify m (suc i) f ≡ some (set m i (some (f n))) = rw (h) refl in
    let s : load (set m i (some (f n))) (suc i) ≡ some (f n) =
      rw (set_same m i (some (f n)) (some n) (load-place m i n h)) refl in
    (set m i (some (f n)), (k, (s, other)))
  where
    other : (q : Pointer) → q ≢ suc i → load (set m i (some (f n))) q ≡ load m q
    other zero e = refl
    other (suc j) e = rw (set_other m i j (some (f n)) (λ d. e (ap suc d))) refl

some_inj : {x y : Node} → some x ≡ some y → x ≡ y
some_inj e = cc

same_or_not : (a b : ℕ) → (a ≡ b) ⊎ (a ≢ b)
same_or_not a b = elim (Bool-cases (a == b)) [
  | inl e ↦ inl ((==_iff a b).0 e)
  | inr e ↦ inr (λ d. no e d)
]
  where
    no : (a == b) ≡ false → a ≡ b → ⊥
    no e d = ground arith

-- A write keeps the nodes alive.
modify-Alive :
    (m : Memory) (p : Pointer) (f : Node → Node)
    → Alive m p
    → (m1 : Memory) × ((modify m p f ≡ some m1)
        × (((q : Pointer) → Alive m q → Alive m1 q)
            × (((q : Pointer) → q ≢ p → load m1 q ≡ load m q)
                × ((x : Node) → load m p ≡ some x → load m1 p ≡ some (f x)))))
modify-Alive m p f (n, h) =
    let (m1, (k, (s, o))) = modify_lem m p f n h in
    let alive : (q : Pointer) → Alive m q → Alive m1 q =
      λ q (u, a). elim (same_or_not q p) [ inl e ↦ (f n, rw (e) s) | inr e ↦ (u, o q e ∙ a) ] in
    let written : (x : Node) → load m p ≡ some x → load m1 p ≡ some (f x) =
      λ x e. subst (λ y. load m1 p ≡ some (f y)) (some_inj (sym h ∙ e)) s in
    (m1, (k, (alive, (o, written))))

-- A shift, where the four nodes it writes to are there. The front of the queue becomes its head,
-- with its `front` as it was, when it is none of the other three.
shift_queue_lem :
    (m : Memory) (head : Pointer) (h t : Node)
    → load m head ≡ some h
    → load m h.front ≡ some t
    → Alive m t.prev
    → Alive m h.rear
    → (m1 : Memory) × ((shift_queue m head ≡ some (m1, h.front))
        × (((q : Pointer) → Alive m q → Alive m1 q)
            × (h.front ≢ t.prev
                → h.front ≢ head
                → h.front ≢ h.rear
                → load m1 h.front ≡ some (record t { next = h.rear }))))
unfolding shift_queue
shift_queue_lem m head h t a b c d =
    let (m1, (k1, (l1, (o1, s1)))) = modify-Alive m t.prev (λ n. record n { next = 0 }) c in
    let (m2, (k2, (l2, (o2, s2)))) =
      modify-Alive m1 head (λ n. record n { front = t.prev }) (l1 head (h, a)) in
    let t2 : Alive m2 h.front = l2 h.front (l1 h.front (t, b)) in
    let (m3, (k3, (l3, (o3, s3)))) = modify-Alive m2 h.front (λ n. record n { next = h.rear }) t2 in
    let (m4, (k4, (l4, (o4, s4)))) =
      modify-Alive m3 h.rear (λ n. record n { prev = h.front })
        (l3 h.rear (l2 h.rear (l1 h.rear d))) in
    let (m5, (k5, (l5, (o5, s5)))) =
      modify-Alive m4 head (λ n. record n { rear = h.front })
        (l4 head (l3 head (l2 head (l1 head (h, a))))) in
    let s : shift_queue m head ≡ some (m5, h.front) = rw (a, b, k1, k2, k3, k4, k5) refl in
    let w : (h.front ≢ t.prev
        → h.front ≢ head
        → h.front ≢ h.rear
        → load m5 h.front ≡ some (record t { next = h.rear })) =
      λ e1 e2 e3.
        let b2 : load m2 h.front ≡ some t = o2 h.front e2 ∙ o1 h.front e1 ∙ b in
        o5 h.front e2 ∙ o4 h.front e3 ∙ s3 t b2 in
    (m5, (s, (λ q x. l5 q (l4 q (l3 q (l2 q (l1 q x)))), w)))

-- The queue with at least two nodes, before the first shift.
record Filled (m : Memory) (head : Pointer) (c : ℕ) : Type 0 where
  last : Node
  head_node : (h : Node) × ((load m head ≡ some h) × ((h.front ≡ 1) × (h.rear ≡ head)))
  first : load m 1 ≡ some last
  pid_lem : last.pid ≡ c
  front_lem : last.front ≡ 1
  rear_lem : last.rear ≡ 1
  prev_lem : last.prev ≡ 2
  second : Alive m 2
  not_first : 1 ≢ head

dispatch_twice :
    (m : Memory) (head : Pointer) (c : ℕ) → Filled m head c → dispatch 2 m head ≡ some (c ∷ c ∷ [])
unfolding dispatch
dispatch_twice m head c g =
    let (h, (a, (f, r))) = g.head_node in
    let t : Node = g.last in
    let b : load m h.front ≡ some t = rw (f) g.first in
    let second : Alive m t.prev = subst (λ q. Alive m q) (sym g.prev_lem) g.second in
    let (m1, (k1, (l1, w1))) =
      shift_queue_lem m head h t a b second (subst (λ q. Alive m q) (sym r) (h, a)) in
    let t2 : Node = record t { next = h.rear } in
    let e1 : h.front ≢ t.prev = λ e. two (sym f ∙ e ∙ g.prev_lem) in
    let e2 : h.front ≢ head = λ e. g.not_first (sym f ∙ e) in
    let e3 : h.front ≢ h.rear = λ e. e2 (e ∙ r) in
    let t1 : load m1 1 ≡ some t2 = subst (λ q. load m1 q ≡ some t2) f (w1 e1 e2 e3) in
    let t3 : load m1 t2.front ≡ some t2 = subst (λ q. load m1 q ≡ some t2) (sym g.front_lem) t1 in
    let (m2, (k2, (l2, w2))) =
      shift_queue_lem m1 1 t2 t2 t1 t3 (l1 t.prev second)
        (subst (λ q. Alive m1 q) (sym g.rear_lem) (t2, t1)) in
    let p1 : dispatch 1 m1 1 ≡ some (t.pid ∷ []) = rw (t1, t3, k2) refl in
    let p2 : dispatch 1 m1 h.front ≡ some (t.pid ∷ []) =
      subst (λ q. dispatch 1 m1 q ≡ some (t.pid ∷ [])) (sym f) p1 in
    rw (a, b, k1, p2, g.pid_lem) refl
  where
    two : ◌≢◌ {A = ℕ} 1 2
    two e = omega arith

load-append : (m l : Memory) (p : Pointer) (n : Node) → load m p ≡ some n → load (m ++ l) p ≡ some n
load-append m l zero n h = cc
load-append [] l (suc i) n h = cc
load-append (x ∷ m) l (suc zero) n h = h
load-append (x ∷ m) l (suc (suc i)) n h = load-append m l (suc i) n h

load-last : (m : Memory) (n : Node) → load (m ++ some n ∷ []) (suc (length m)) ≡ some n
load-last [] n = refl
load-last (x ∷ m) n = load-last m n

load-bound : (m : Memory) (p : Pointer) (n : Node) → load m p ≡ some n → p ≤ length m
load-bound m zero n h = omega arith
load-bound [] (suc i) n h = cc
load-bound (x ∷ m) (suc zero) n h = omega arith
load-bound (x ∷ m) (suc (suc i)) n h = omega (arith, load-bound m (suc i) n h)

push-Filled :
    (m : Memory) (head : Pointer) (c d : ℕ)
    → Filled m head c
    → (m1 : Memory) × ((push m head d ≡ some (m1, suc (length m))) × Filled m1 (suc (length m)) c)
unfolding push
push-Filled m zero c d g = cc
push-Filled m (suc i) c d g =
    let (h, (a, (f, r))) = g.head_node in
    let (u, k) = g.second in
    let size2 : 2 ≤ length m = load-bound m 2 u k in
    let size1 : suc i ≤ length m = load-bound m (suc i) h a in
    let new : Node = record {
      pid = d;
      rear = suc (length m);
      front = h.front;
      prev = 0;
      next = suc i;
    } in
    let m0 : Memory = m ++ some new ∷ [] in
    let app : (p : Pointer) (n : Node) → load m p ≡ some n → load m0 p ≡ some n =
      load-append m (some new ∷ []) in
    let (m1, (e, (l, (o, s)))) =
      modify-Alive m0 (suc i) (λ n. record n { prev = suc (length m) }) (h, app (suc i) h a) in
    let n1 : 1 ≢ suc i = g.not_first in
    (
      m1,
      (
        rw (a, e) refl,
        record {
          last = g.last;
          head_node = (new, (o (suc (length m)) (omega arith) ∙ load-last m new, (f, refl)));
          first = o 1 n1 ∙ app 1 g.last g.first;
          pid_lem = g.pid_lem;
          front_lem = g.front_lem;
          rear_lem = g.rear_lem;
          prev_lem = g.prev_lem;
          second = l 2 (u, app 2 u k);
          not_first = omega arith;
        },
      ),
    )

push_all-Filled :
    (m : Memory) (head : Pointer) (c : ℕ) (cpid : List ℕ)
    → Filled m head c
    → (m1 : Memory) × ((head1 : Pointer) × ((push_all m head cpid ≡ some (m1, head1))
          × Filled m1 head1 c))
unfolding push_all
push_all-Filled m head c [] g = (m, (head, (refl, g)))
push_all-Filled m head c (d ∷ cpid) g =
    let (m1, (e, g1)) = push-Filled m head c d g in
    let (m2, (head2, (e2, g2))) = push_all-Filled m1 (suc (length m)) c cpid g1 in
    (m2, (head2, (rw (e) e2, g2)))

two-Filled :
    (c d : ℕ) → (m : Memory) × ((push (create_queue [] c).0 1 d ≡ some (m, 2)) × Filled m 2 c)
unfolding push create_queue
two-Filled c d =
    let one : Node = record { pid = c; rear = 1; front = 1; prev = 2; next = 0 } in
    let two : Node = record { pid = d; rear = 2; front = 1; prev = 0; next = 1 } in
    (
      some one ∷ some two ∷ [],
      (
        refl,
        record {
          last = one;
          head_node = (two, (refl, (refl, refl)));
          first = refl;
          pid_lem = refl;
          front_lem = refl;
          rear_lem = refl;
          prev_lem = refl;
          second = (two, refl);
          not_first = omega arith;
        },
      ),
    )

-- The first two signals go to the same child, the first that was made, whatever children were made
-- behind it, at least one: the node that a shift brings to the head keeps its own `front`.
pub balance_twice : (c d : ℕ) (cpid : List ℕ) → balance 2 c (d ∷ cpid) ≡ some (c ∷ c ∷ [])
unfolding balance push_all create_queue
balance_twice c d cpid =
    let (m, (e, g)) = two-Filled c d in
    let (m1, (head1, (e1, g1))) = push_all-Filled m 2 c cpid g in
    rw (e, e1) (dispatch_twice m1 head1 c g1)
