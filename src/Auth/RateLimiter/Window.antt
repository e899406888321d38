-- ===== src/Auth/RateLimiter/Window.antt =====
-- apps/api/src/auth/rate-limiter.ts: a bucket allows a call exactly when fewer than the limit were
-- allowed in the window before it.
use i_code_host_pro.Prelude.{
  ℕ, ◌≤◌, ◌≡◌, refl, Bool, List, [], ◌∷◌, ◌++◌, leb, ltb, if◌then◌else◌, filter, length, arith, ap,
  ◌∙◌, Bool-cases, inl, inr,
}
use i_code_host_pro.Auth.RateLimiter.{in_window, consume_bucket}

filter-append : (p : ℕ → Bool) (xs ys : List ℕ) → filter p (xs ++ ys) ≡ filter p xs ++ filter p ys
filter-append p [] ys = refl
filter-append p (x ∷ xs) ys = ground (arith, filter-append p xs ys)

-- What left the window earlier is out of it later.
filter-filter :
    (now later window_ms : ℕ) (xs : List ℕ)
    → now ≤ later
    → filter (in_window later window_ms) (filter (in_window now window_ms) xs)
      ≡ filter (in_window later window_ms) xs
filter-filter now later window_ms [] h = refl
filter-filter now later window_ms (x ∷ xs) h =
    ground (arith, filter-filter now later window_ms xs h)

module _ (limit window_ms : ℕ) where
  -- The bucket and the log of all instants at which a call was allowed, after calls at the instants.
  pub serve : List ℕ → List ℕ × List ℕ → List ℕ × List ℕ
  serve [] s = s
  serve (now ∷ rest) (bucket, log) =
      let (bucket', r) = consume_bucket now limit window_ms bucket in
      serve rest (bucket', if r.allowed then log ++ (now ∷ []) else log)

  -- The instants do not go back, and `end` is not before the last.
  abbrev pub IsOrdered : ℕ → List ℕ → ℕ → Type 0
  IsOrdered start [] end = start ≤ end
  IsOrdered start (t ∷ ts) end = (start ≤ t) × IsOrdered t ts end

  abbrev Agree : ℕ → List ℕ → List ℕ → Type 0
  Agree now bucket log =
      (later : ℕ)
      → now ≤ later
      → filter (in_window later window_ms) bucket ≡ filter (in_window later window_ms) log

  consume_bucket-Agree :
      (now start : ℕ) (bucket log : List ℕ)
      → start ≤ now
      → Agree start bucket log
      → let (bucket', r) = consume_bucket now limit window_ms bucket in
        Agree now bucket' (if r.allowed then log ++ (now ∷ []) else log)
  unfolding consume_bucket
  consume_bucket-Agree now start bucket log h agree later le =
      let same = filter-filter now later window_ms bucket le ∙ agree later (omega arith) in
      elim (Bool-cases (leb limit (length (filter (in_window now window_ms) bucket)))) [
        | inl full ↦ rw full same
        | inr room ↦ rw room (
            rw
              (
                filter-append (in_window later window_ms) (filter (in_window now window_ms) bucket)
                    (now ∷ []),
                filter-append (in_window later window_ms) log (now ∷ []),
              )
              (ap (λ xs. xs ++ filter (in_window later window_ms) (now ∷ [])) same))
      ]

  serve-Agree :
      (calls : List ℕ) (start end : ℕ) (bucket log : List ℕ)
      → IsOrdered start calls end
      → Agree start bucket log
      → let (bucket', log') = serve calls (bucket, log) in
        filter (in_window end window_ms) bucket' ≡ filter (in_window end window_ms) log'
  unfolding serve
  serve-Agree [] start end bucket log o agree = agree end o
  serve-Agree (now ∷ rest) start end bucket log (h, o) agree =
      serve-Agree rest now end _ _ o (consume_bucket-Agree now start bucket log h agree)

  -- After any calls, from an empty bucket and with a clock that does not go back, the next call is
  -- allowed exactly when fewer than the limit were allowed in the window that ends with it.
  pub consume_bucket_exact :
      (calls : List ℕ) (now : ℕ)
      → IsOrdered 0 calls now
      → let (bucket, log) = serve calls ([], []) in
        (consume_bucket now limit window_ms bucket).1.allowed
        ≡ ltb (length (filter (in_window now window_ms) log)) limit
  unfolding consume_bucket
  consume_bucket_exact calls now o =
      rw (serve-Agree calls 0 now [] [] o (λ later h. refl)) (ground arith)
