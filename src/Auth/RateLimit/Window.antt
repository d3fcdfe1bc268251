-- ===== src/Auth/RateLimit/Window.antt =====
-- No window of time lets more requests from an address through than the limit allows.
use payvorax.Base.{
  ℕ, ◌+◌, ◌≤◌, ◌≡◌, refl, sym, subst, ap, inl, inr, false, ◌&&◌, List, [], ◌∷◌, ◌++◌, arith, leb,
  if◌then◌else◌, Bool-cases, length, ◌<◌, ◌∙◌, Bool, leb→le, if-holds, length-append,
}
use payvorax.Base.Text.{Text, text_eq, text_eq_refl, text_eq→eq}
use payvorax.Auth.RateLimit.{Store, times_of, put_times, evict, rate_limit}

times_of-put_self :
    (ip : Text) (ts : List ℕ) (store : Store) → times_of ip (put_times ip ts store) ≡ ts
times_of-put_self ip ts [] = rw (text_eq_refl ip) refl
times_of-put_self ip ts (e ∷ es) = elim (Bool-cases (text_eq e.0 ip)) [
  | inl same ↦ rw same (rw (text_eq_refl ip) refl)
  | inr other ↦ rw other (rw other (times_of-put_self ip ts es))
]

times_of-put_other :
    (ip from : Text) (ts : List ℕ) (store : Store)
    → text_eq from ip ≡ false
    → times_of ip (put_times from ts store) ≡ times_of ip store
times_of-put_other ip from ts [] h = rw h refl
times_of-put_other ip from ts (e ∷ es) h = elim (Bool-cases (text_eq e.0 from)) [
  | inl same ↦
      let key : e.0 ≡ from = text_eq→eq e.0 from same in
      let apart : text_eq e.0 ip ≡ false = subst (λ t. text_eq t ip ≡ false) (sym key) h in
      rw same (rw h (rw apart refl))
  | inr other ↦ rw other (
      ap (λ (ts' : List ℕ). if text_eq e.0 ip then e.1 else ts')
        (times_of-put_other ip from ts es h))
]

-- How many of the times are `start` or later, and how many of these lie in the window from `start`.
abbrev count_from : ℕ → List ℕ → ℕ
count_from start [] = 0
count_from start (t ∷ ts) = (if leb start t then 1 else 0) + count_from start ts

abbrev pub count_between : ℕ → ℕ → List ℕ → ℕ
count_between start end [] = 0
count_between start end (t ∷ ts) =
    (if leb start t && leb t end then 1 else 0) + count_between start end ts

count_between-le : (start end : ℕ) (ts : List ℕ) → count_between start end ts ≤ count_from start ts
count_between-le start end [] = omega arith
count_between-le start end (t ∷ ts) = ground (arith, count_between-le start end ts)

count_from-le : (start : ℕ) (ts : List ℕ) → count_from start ts ≤ length ts
count_from-le start [] = omega arith
count_from-le start (t ∷ ts) = ground (arith, count_from-le start ts)

count_from-append :
    (start t : ℕ) (ts : List ℕ)
    → count_from start (ts ++ t ∷ []) ≡ (if leb start t then 1 else 0) + count_from start ts
count_from-append start t [] = refl
count_from-append start t (x ∷ ts) = ground (arith, count_from-append start t ts)

-- What is evicted lies before every window that reaches to the present.
count_from-evict :
    (now window start : ℕ) (ts : List ℕ)
    → now ≤ start + window
    → count_from start (evict now window ts) ≡ count_from start ts
count_from-evict now window start [] h = refl
count_from-evict now window start (t ∷ ts) h =
    ground (arith, count_from-evict now window start ts h)

length-evict : (now window : ℕ) (ts : List ℕ) → length (evict now window ts) ≤ length ts
length-evict now window [] = omega arith
length-evict now window (t ∷ ts) = ground (arith, length-evict now window ts)

module _ (ip : Text) (max_req window : ℕ) where
  -- A request at a time from an address; kept are the times at which `ip` was let through, latest
  -- first.
  abbrev pub serve : ℕ → Text → Store → List ℕ → Store × List ℕ
  serve now from store accepted =
      let o = rate_limit now from max_req window store in
      (o.1, if o.0 && text_eq from ip then now ∷ accepted else accepted)

  abbrev pub serve_all : List (ℕ × Text) → Store × List ℕ → Store × List ℕ
  serve_all [] s = s
  serve_all (r ∷ rs) s = serve_all rs (serve r.0 r.1 s.0 s.1)

  record Inv (last : ℕ) (store : Store) (accepted : List ℕ) : Type 0 where
    few : length (times_of ip store) ≤ max_req
    recent :
        (start : ℕ)
        → last ≤ start + window
        → count_from start accepted ≡ count_from start (times_of ip store)
    bounded : (start : ℕ) → count_between start (start + window) accepted ≤ max_req

  -- A request after which the times of `ip` are as before, but for those evicted.
  kept-Inv :
      (last now : ℕ) (store store' : Store) (accepted ts : List ℕ)
      → last ≤ now
      → Inv last store accepted
      → times_of ip store' ≡ ts
      → length ts ≤ max_req
      → ((start : ℕ)
          → now ≤ start + window
          → count_from start ts ≡ count_from start (times_of ip store))
      → Inv now store' accepted
  kept-Inv last now store store' accepted ts le v e short same = record {
    few = subst (λ x. length x ≤ max_req) (sym e) short;
    recent = λ start h.
        v.recent start (omega (arith, h, le)) ∙ sym (same start h) ∙ ap (count_from start) (sym e);
    bounded = v.bounded;
  }

  -- A request that is let through.
  added-Inv :
      (last now : ℕ) (store store' : Store) (accepted ts : List ℕ)
      → last ≤ now
      → Inv last store accepted
      → times_of ip store' ≡ ts ++ now ∷ []
      → length ts < max_req
      → ((start : ℕ)
          → now ≤ start + window
          → count_from start ts ≡ count_from start (times_of ip store))
      → Inv now store' (now ∷ accepted)
  added-Inv last now store store' accepted ts le v e short same = record {
    few =
        subst (λ x. length x ≤ max_req) (sym e) (omega (arith, length-append ts (now ∷ []), short));
    recent = λ start h.
        ap (λ n. (if leb start now then 1 else 0) + n)
          (v.recent start (omega (arith, h, le)) ∙ sym (same start h))
        ∙ sym (count_from-append start now ts)
        ∙ ap (count_from start) (sym e);
    bounded = λ start. elim (Bool-cases (leb now (start + window))) [
      | inl inside ↦
          let h : now ≤ start + window = leb→le now (start + window) inside in
          omega (
            arith,
            count_between-le start (start + window) (now ∷ accepted),
            ap (λ n. (if leb start now then 1 else 0) + n)
                (v.recent start (omega (arith, h, le)) ∙ sym (same start h)),
            count_from-append start now ts,
            count_from-le start (ts ++ now ∷ []),
            length-append ts (now ∷ []),
            short,
          )
      | inr beyond ↦ ground (arith, v.bounded start, beyond)
    ];
  }

  serve_own-Inv :
      (last now : ℕ) (store : Store) (accepted : List ℕ)
      → last ≤ now
      → Inv last store accepted
      → Inv now (serve now ip store accepted).0 (serve now ip store accepted).1
  unfolding rate_limit
  serve_own-Inv last now store accepted le v =
      let ts = evict now window (times_of ip store) in
      let same = λ (start : ℕ) (h : now ≤ start + window).
        count_from-evict now window start (times_of ip store) h in
      if-holds
        (λ (o : Bool × Store).
          Inv now o.1 (if o.0 && text_eq ip ip then now ∷ accepted else accepted))
        (leb max_req (length ts)) _ _
        (λ full.
          kept-Inv last now store (put_times ip ts store) accepted ts le v
            (times_of-put_self ip ts store)
            (omega (arith, length-evict now window (times_of ip store), v.few)) same)
        (λ room. rw (text_eq_refl ip) (
          added-Inv last now store (put_times ip (ts ++ now ∷ []) store) accepted ts le v
            (times_of-put_self ip (ts ++ now ∷ []) store) (ground (arith, room)) same))

  serve_other-Inv :
      (last now : ℕ) (from : Text) (store : Store) (accepted : List ℕ)
      → last ≤ now
      → text_eq from ip ≡ false
      → Inv last store accepted
      → Inv now (serve now from store accepted).0 (serve now from store accepted).1
  unfolding rate_limit
  serve_other-Inv last now from store accepted le other v =
      let ts = evict now window (times_of from store) in
      if-holds
        (λ (o : Bool × Store).
          Inv now o.1 (if o.0 && text_eq from ip then now ∷ accepted else accepted))
        (leb max_req (length ts)) _ _
        (λ full.
          kept-Inv last now store (put_times from ts store) accepted (times_of ip store) le v
            (times_of-put_other ip from ts store other) v.few (λ start h. refl))
        (λ room. rw other (
          kept-Inv last now store (put_times from (ts ++ now ∷ []) store) accepted
            (times_of ip store) le v (times_of-put_other ip from (ts ++ now ∷ []) store other) v.few
            (λ start h. refl)))

  serve-Inv :
      (last now : ℕ) (from : Text) (store : Store) (accepted : List ℕ)
      → last ≤ now
      → Inv last store accepted
      → Inv now (serve now from store accepted).0 (serve now from store accepted).1
  serve-Inv last now from store accepted le v = elim (Bool-cases (text_eq from ip)) [
    | inl own ↦
        subst (λ x. Inv now (serve now x store accepted).0 (serve now x store accepted).1)
          (sym (text_eq→eq from ip own)) (serve_own-Inv last now store accepted le v)
    | inr other ↦ serve_other-Inv last now from store accepted le other v
  ]

-- The requests come in the order of the clock.
abbrev pub Ascending : ℕ → List (ℕ × Text) → Type 0
Ascending last [] = Unit
Ascending last (r ∷ rs) = (last ≤ r.0) × Ascending r.0 rs

module _ (ip : Text) (max_req window : ℕ) where
  serve_all-Inv :
      (rs : List (ℕ × Text)) (last : ℕ) (store : Store) (accepted : List ℕ)
      → Ascending last rs
      → Inv ip max_req window last store accepted
      → (start : ℕ)
      → count_between start (start + window) (serve_all ip max_req window rs (store, accepted)).1
        ≤ max_req
  serve_all-Inv [] last store accepted h v = v.bounded
  serve_all-Inv (r ∷ rs) last store accepted h v =
      let o = serve ip max_req window r.0 r.1 store accepted in
      serve_all-Inv rs r.0 o.0 o.1 h.1
        (serve-Inv ip max_req window last r.0 r.1 store accepted h.0 v)

  -- Whatever requests come in, from whatever addresses, in the order of the clock: of those from one
  -- address, no window of the given length lets more through than the limit.
  pub rate_limit_bounds :
      (rs : List (ℕ × Text)) (start : ℕ)
      → Ascending 0 rs
      → count_between start (start + window) (serve_all ip max_req window rs ([], [])).1 ≤ max_req
  rate_limit_bounds rs start h =
      serve_all-Inv rs 0 [] [] h
        (record { few = omega arith; recent = λ s e. refl; bounded = λ s. omega arith }) start
