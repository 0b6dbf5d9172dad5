-- ===== src/Async/Requests.antt =====
-- Requests over time, for src/async_lifecycle.rs: identifiers and completions.
use zorya.Common.{
  ℕ, suc, ◌+◌, ◌&&◌, ◌≤◌, ◌≡◌, refl, inl, inr, ==_refl, ap, subst, Option, some, Bool, true, false,
  none, List, [], ◌∷◌, arith, Bool-cases, if◌then◌else◌, u64_max, ltb, Outcome, ok, err, panicked,
  Rising, Rising-widen,
}
use zorya.Async
use zorya.Async.{
  AsyncTarget, AsyncLifecycleError, request_id_exhausted, AsyncRequestSequence, new, allocate,
  PendingRequest, same_target, is_target,
}

-- The targets that the requests get; a request that fails gets none.
abbrev given : Outcome AsyncLifecycleError AsyncTarget → List AsyncTarget → List AsyncTarget
given (ok target) rest = target ∷ rest
given (err e) rest = rest
given panicked rest = rest

unfoldable pub allocate_all : List (ℕ × ℕ) → AsyncRequestSequence → List AsyncTarget
allocate_all [] s = []
allocate_all ((window, tab) ∷ requests) s =
    given (allocate window tab s).0 (allocate_all requests (allocate window tab s).1)

allocate_exhausted :
    (window tab : ℕ) (s : AsyncRequestSequence)
    → s.next ≡ 0
    → allocate window tab s ≡ (err request_id_exhausted, s)
unfolding allocate
allocate_exhausted window tab s e = ground arith

allocate_next :
    (window tab : ℕ) (s : AsyncRequestSequence)
    → 1 ≤ s.next
    → allocate window tab s ≡ (
      ok (record { request = s.next; window = window; tab = tab }),
      record { next = if ltb u64_max (s.next + 1) then 0 else s.next + 1 },
    )
unfolding allocate
allocate_next window tab s h = ground arith

exhausted :
    (requests : List (ℕ × ℕ)) (s : AsyncRequestSequence) → s.next ≡ 0 → allocate_all requests s ≡ []
unfolding allocate_all
exhausted [] s e = refl
exhausted ((window, tab) ∷ requests) s e =
    rw (allocate_exhausted window tab s e) (exhausted requests s e)

allocate_all-Rising-from :
    (requests : List (ℕ × ℕ)) (s : AsyncRequestSequence)
    → 1 ≤ s.next
    → s.next ≤ u64_max
    → Rising (λ (t : AsyncTarget). t.request) s.next (allocate_all requests s) (u64_max + 1)
unfolding allocate_all
allocate_all-Rising-from [] s lo hi = omega arith
allocate_all-Rising-from ((window, tab) ∷ requests) s lo hi =
    elim (Bool-cases (ltb u64_max (s.next + 1))) [
      | inl full ↦
          rw (allocate_next window tab s lo, full, exhausted requests (record { next = 0 }) refl)
            (omega arith, omega arith)
      | inr free ↦
          rw (allocate_next window tab s lo, free)
            (
              omega arith,
              Rising-widen _ (s.next + 1) (suc s.next) _ _ _ (omega arith) (omega arith) (
                  allocate_all-Rising-from requests (record { next = s.next + 1 }) (omega arith)
                    (ground arith)),
            )
    ]

-- However many requests are made, the identifiers given are 64-bit words from 1 on, each greater
-- than the one before: none is ever given twice.
pub allocate_all-Rising :
    (requests : List (ℕ × ℕ))
    → Rising (λ (t : AsyncTarget). t.request) 1 (allocate_all requests new) (u64_max + 1)
unfolding new
allocate_all-Rising requests = allocate_all-Rising-from requests new (omega arith) (omega arith)

-- What happens to a pending request.
pub data Event : Type 0 where
  begin complete_if_current : AsyncTarget → Event
  invalidate : Event

unfoldable pub step : Event → PendingRequest → PendingRequest
step (begin target) p = (Async.begin target p).1
step (complete_if_current target) p = (Async.complete_if_current p target).1
step invalidate p = Async.invalidate p

abbrev pub one_if : Bool → ℕ
one_if true = 1
one_if false = 0

abbrev is_ok {ℓ κ} : {E : Type κ} {A : Type ℓ} → Outcome E A → Bool
is_ok (ok _) = true
is_ok _ = false

-- How often a request of `target` is taken on, and how often its completion is accepted.
unfoldable pub begins : AsyncTarget → List Event → PendingRequest → ℕ
begins target [] p = 0
begins target (begin t ∷ es) p =
    one_if (same_target t target && is_ok (Async.begin t p).0) + begins target es (step (begin t) p)
begins target (complete_if_current t ∷ es) p = begins target es (step (complete_if_current t) p)
begins target (invalidate ∷ es) p = begins target es (step invalidate p)

unfoldable pub completions : AsyncTarget → List Event → PendingRequest → ℕ
completions target [] p = 0
completions target (begin t ∷ es) p = completions target es (step (begin t) p)
completions target (complete_if_current t ∷ es) p =
    one_if (same_target t target && (Async.complete_if_current p t).0)
    + completions target es (step (complete_if_current t) p)
completions target (invalidate ∷ es) p = completions target es (step invalidate p)

-- How often a request of `target` is dropped by an invalidation while it is waited for.
unfoldable pub drops : AsyncTarget → List Event → PendingRequest → ℕ
drops target [] p = 0
drops target (begin t ∷ es) p = drops target es (step (begin t) p)
drops target (complete_if_current t ∷ es) p = drops target es (step (complete_if_current t) p)
drops target (invalidate ∷ es) p =
    one_if (is_target p.current target) + drops target es (step invalidate p)

-- Whether a request of `target` is waited for in the end.
unfoldable pub waits : AsyncTarget → List Event → PendingRequest → ℕ
waits target [] p = one_if (is_target p.current target)
waits target (e ∷ es) p = waits target es (step e p)

same_target_refl : (a : AsyncTarget) → same_target a a ≡ true
same_target_refl a = simp (==_refl a.request, ==_refl a.window, ==_refl a.tab)

same_target-≡ : (a b : AsyncTarget) → same_target a b ≡ true → a ≡ b
same_target-≡ a b h =
    let requests : a.request ≡ b.request = ground arith in
    let windows : a.window ≡ b.window = ground arith in
    let tabs : a.tab ≡ b.tab = ground arith in
    λ i. record { request = requests i; window = windows i; tab = tabs i }

complete_current :
    (c : AsyncTarget)
    → Async.complete_if_current (record { current = some c }) c ≡ (true, record { current = none })
unfolding Async.complete_if_current Async.is_current
complete_current c = rw (same_target_refl c) refl

complete_other :
    (c t : AsyncTarget)
    → same_target c t ≡ false
    → Async.complete_if_current (record { current = some c }) t
      ≡ (false, record { current = some c })
unfolding Async.complete_if_current Async.is_current
complete_other c t miss = rw miss refl

complete_none :
    (t : AsyncTarget)
    → Async.complete_if_current (record { current = none }) t ≡ (false, record { current = none })
unfolding Async.complete_if_current Async.is_current
complete_none t = refl

-- The requests that are accounted for, with `c` waited for.
abbrev Balances : AsyncTarget → List Event → Option AsyncTarget → Type 0
Balances target es c =
    begins target es (record { current = c }) + one_if (is_target c target)
    ≡ completions target es (record { current = c })
      + drops target es (record { current = c })
      + waits target es (record { current = c })

-- The counts over a completion, from what it does.
conserved_complete :
    (target : AsyncTarget) (es : List Event) (t : AsyncTarget) (c d : Option AsyncTarget)
    (accepted : Bool)
    → Async.complete_if_current (record { current = c }) t ≡ (accepted, record { current = d })
    → one_if (is_target c target)
      ≡ one_if (same_target t target && accepted) + one_if (is_target d target)
    → Balances target es d
    → Balances target (complete_if_current t ∷ es) c
unfolding completions begins drops waits step
conserved_complete target es t c d accepted e balance rest =
    let p : PendingRequest = record { current = c } in
    let begun : begins target (complete_if_current t ∷ es) p
        ≡ begins target es (record { current = d }) =
      ap (λ r. begins target es r.1) e in
    let completed : completions target (complete_if_current t ∷ es) p
        ≡ one_if (same_target t target && accepted)
          + completions target es (record { current = d }) =
      ap (λ r. one_if (same_target t target && r.0) + completions target es r.1) e in
    let dropped : drops target (complete_if_current t ∷ es) p
        ≡ drops target es (record { current = d }) =
      ap (λ r. drops target es r.1) e in
    let waited : waits target (complete_if_current t ∷ es) p
        ≡ waits target es (record { current = d }) =
      ap (λ r. waits target es r.1) e in
    omega (arith, begun, completed, dropped, waited, balance, rest)

balance_current :
    (target c : AsyncTarget)
    → one_if (same_target c target) ≡ one_if (same_target c target && true) + 0
balance_current target c = elim (Bool-cases (same_target c target)) [
  | inl e ↦ rw e refl
  | inr e ↦ rw e refl
]

balance_refused : (target t : AsyncTarget) (n : ℕ) → n ≡ one_if (same_target t target && false) + n
balance_refused target t n = elim (Bool-cases (same_target t target)) [
  | inl e ↦ rw e (omega arith)
  | inr e ↦ rw e (omega arith)
]

conserved : (target : AsyncTarget) (es : List Event) (c : Option AsyncTarget) → Balances target es c
unfolding completions begins drops waits step Async.begin Async.invalidate
conserved target [] c = omega arith
conserved target (begin t ∷ es) none = ground (arith, conserved target es (some t))
conserved target (begin t ∷ es) (some c) = ground (arith, conserved target es (some c))
conserved target (complete_if_current t ∷ es) none =
    conserved_complete target es t none none false (complete_none t) (balance_refused target t 0)
      (conserved target es none)
conserved target (complete_if_current t ∷ es) (some c) = elim (Bool-cases (same_target c t)) [
  | inl hit ↦
      subst (λ u. Balances target (complete_if_current u ∷ es) (some c)) (same_target-≡ c t hit)
        (conserved_complete target es c (some c) none true (complete_current c)
          (balance_current target c) (conserved target es none))
  | inr miss ↦
      conserved_complete target es t (some c) (some c) false (complete_other c t miss)
        (balance_refused target t (one_if (same_target c target))) (conserved target es (some c))
]
conserved target (invalidate ∷ es) c = omega (arith, conserved target es none)

-- From whatever is waited for at first, every request of a target that was taken on is in the end
-- accounted for exactly once: its completion was accepted, an invalidation has dropped it, or it is
-- waited for still. So a completion is refused once the request is completed or invalidated.
pub begins-completions :
    (target : AsyncTarget) (es : List Event) (p : PendingRequest)
    → begins target es p + one_if (is_target p.current target)
      ≡ completions target es p + drops target es p + waits target es p
begins-completions target es p = conserved target es p.current
