-- ===== src/Ref/Counts.antt =====
-- What `Retain` and `Release` do to the counts.
use xhnet.Common.{
  ℕ, ◌+◌, ◌-◌, ◌%◌, ◌^◌, ◌<◌, ◌≡◌, ◌≢◌, ap, ◌∙◌, true, false, not, some, arith, ◌==◌, ==_iff,
  ==_refl, ne→==, if◌then◌else◌, ◌⊎◌, inl, inr, Bool-cases,
}
use xhnet.Ref.{Heap, assign_at, new_object, retain, release, retain_pointer, release_pointer}

-- The objects have the counts `n`, and those with a count of 0 are gone.
pub record HasCounts (h : Heap) (n : ℕ → ℕ) : Type 0 where
  pub live : (p : ℕ) → p ≢ 0 → h.live p ≡ not (n p == 0)
  pub ref : (p : ℕ) → p ≢ 0 → 0 < n p → h.ref p ≡ n p

abbrev pub one : ℕ → ℕ → ℕ
one p x = if x == p then 1 else 0

pub HasCounts-ext :
    {h : Heap} {n m : ℕ → ℕ} → ((x : ℕ) → x ≢ 0 → n x ≡ m x) → HasCounts h n → HasCounts h m
HasCounts-ext same c = record {
  live = λ p ne. rw (← same p ne) (c.live p ne);
  ref = λ p ne pos. rw (← same p ne) (c.ref p ne (rw (← same p ne) at pos));
}

pub new_object-HasCounts :
    {h : Heap} {n : ℕ → ℕ} (p : ℕ)
    → HasCounts h n
    → n p ≡ 0
    → HasCounts (new_object p h) (λ x. n x + one p x)
unfolding new_object
new_object-HasCounts {h} {n} p c gone = record {
  live = λ x ne. elim (Bool-cases (x == p)) [
    | inl e ↦ rw e (ground arith)
    | inr e ↦ rw e (ground (arith, c.live x ne))
  ];
  ref = λ x ne pos. elim (Bool-cases (x == p)) [
    | inl e ↦ rw e (omega (arith, gone, ap n ((==_iff x p).0 e)))
    | inr e ↦ rw e (omega (arith, c.ref x ne (omega (arith, (rw e at pos)))))
  ];
}

pub retain-HasCounts :
    {h : Heap} {n : ℕ → ℕ} (p : ℕ)
    → HasCounts h n
    → p ≢ 0
    → 0 < n p
    → n p + 1 < 2 ^ 32
    → (h' : Heap) × (retain p h ≡ some h') × HasCounts h' (λ x. n x + one p x)
unfolding retain
retain-HasCounts {h} {n} p c ne pos small =
    let alive : h.live p ≡ true = ground (arith, c.live p ne) in
    let counted : h.ref p ≡ n p = c.ref p ne pos in
    let passes : (h.ref p == 0) ≡ false = ne→== _ _ (omega arith) in
    (
      record h { ref = assign_at h.ref p ((h.ref p + 1) % 2 ^ 32) },
      (rw (alive, passes)),
      record {
        live = λ x nx. elim (Bool-cases (x == p)) [
          | inl e ↦ rw e (ground (arith, c.live x nx, ap n ((==_iff x p).0 e)))
          | inr e ↦ rw e (ground (arith, c.live x nx))
        ];
        ref = λ x nx px. elim (Bool-cases (x == p)) [
          | inl e ↦ rw e (omega (arith, ap n ((==_iff x p).0 e)))
          | inr e ↦ rw e (omega (arith, c.ref x nx (omega (arith, (rw e at px)))))
        ];
      },
    )

pub release-HasCounts :
    {h : Heap} {n : ℕ → ℕ} (p : ℕ)
    → HasCounts h (λ x. n x + one p x)
    → p ≢ 0
    → n p + 1 < 2 ^ 32
    → (h' : Heap) × (release p h ≡ some h') × HasCounts h' n
unfolding release
release-HasCounts {h} {n} p c ne small =
    let counted : h.ref p ≡ n p + 1 =
      c.ref p ne (rw (==_refl p) (omega arith)) ∙ (rw (==_refl p)) in
    let alive : h.live p ≡ true = ground (arith, c.live p ne) in
    (
      record {
        live = if h.ref p == 1 then assign_at h.live p false else h.live;
        ref = assign_at h.ref p ((h.ref p + (2 ^ 32 - 1)) % 2 ^ 32);
      },
      (rw alive),
      record {
        live = λ x nx. elim (Bool-cases (h.ref p == 1)) [
          | inl last ↦ rw last (elim (Bool-cases (x == p)) [
            | inl e ↦ rw e (ground (arith, ap n ((==_iff x p).0 e)))
            | inr e ↦ rw e (c.live x nx ∙ (rw e (ground arith)))
          ])
          | inr more ↦ rw more (elim (Bool-cases (x == p)) [
            | inl e ↦ c.live x nx ∙ (rw e (ground (arith, ap n ((==_iff x p).0 e))))
            | inr e ↦ c.live x nx ∙ (rw e (ground arith))
          ])
        ];
        ref = λ x nx px. elim (Bool-cases (x == p)) [
          | inl e ↦ rw e (omega (arith, ap n ((==_iff x p).0 e)))
          | inr e ↦ rw e (c.ref x nx (omega arith) ∙ (rw e (omega arith)))
        ];
      },
    )

-- The null pointer has no count.
null-HasCounts :
    {h : Heap} {n : ℕ → ℕ} (p : ℕ) → p ≡ 0 → HasCounts h n → HasCounts h (λ x. n x + one p x)
null-HasCounts p null c = HasCounts-ext (λ x ne. rw (ne→== x p (omega arith)) (omega arith)) c

pub retain_pointer-HasCounts :
    {h : Heap} {n : ℕ → ℕ} (p : ℕ)
    → HasCounts h n
    → (p ≡ 0) ⊎ (0 < n p)
    → n p + 1 < 2 ^ 32
    → (h' : Heap) × (retain_pointer p h ≡ some h') × HasCounts h' (λ x. n x + one p x)
unfolding retain_pointer
retain_pointer-HasCounts {h} p c known small = elim (Bool-cases (p == 0)) [
  | inl null ↦ (h, (rw null), null-HasCounts p ((==_iff p 0).0 null) c)
  | inr some_object ↦
      let (h', e, c') = retain-HasCounts p c (ground arith) (ground arith) small in
      (h', (rw some_object) ∙ e, c')
]

pub release_pointer-HasCounts :
    {h : Heap} {n : ℕ → ℕ} (p : ℕ)
    → HasCounts h (λ x. n x + one p x)
    → n p + 1 < 2 ^ 32
    → (h' : Heap) × (release_pointer p h ≡ some h') × HasCounts h' n
unfolding release_pointer
release_pointer-HasCounts {h} {n} p c small = elim (Bool-cases (p == 0)) [
  | inl null ↦
      let zero_p : p ≡ 0 = (==_iff p 0).0 null in
      (h, (rw null), HasCounts-ext (λ x ne. rw (ne→== x p (omega arith)) (omega arith)) c)
  | inr some_object ↦
      let (h', e, c') = release-HasCounts p c (ground arith) small in (h', (rw some_object) ∙ e, c')
]
