-- ===== src/Search/Bounds.antt =====
-- What a search keeps of the responses that arrive.
use soulseek_rs_lib.Base.{
  ℕ, zero, suc, ◌-◌, ◌≤◌, ◌<◌, ◌≡◌, refl, sym, ap, ◌∙◌, inl, inr, true, false, Bool-cases, List, [],
  ◌∷◌, ◌++◌, append-nil, append_assoc, take, length, length-take, ◌⊎◌, arith,
}
use soulseek_rs_lib.Search.{
  SearchResult, Search, max_search_responses, max_search_files, total_files, has_room,
  accept_response,
}

-- The responses in the order they arrive.
abbrev pub accept_all : List SearchResult → Search → Search
accept_all [] s = s
accept_all (r ∷ rest) s = accept_all rest (accept_response r s)

abbrev with_results : Search → List SearchResult → Search
with_results s more = record s { results = s.results ++ more }

-- The first `n` of the arrivals were kept: each while there was room, and no more once there was none.
pub record Keeps (s : Search) (arrivals : List SearchResult) (n : ℕ) : Type 0 where
  pub kept : accept_all arrivals s ≡ with_results s (take n arrivals)
  pub among : n ≤ length arrivals
  pub had_room : (k : ℕ) → k < n → has_room (with_results s (take k arrivals)) ≡ true
  pub full : n < length arrivals → has_room (accept_all arrivals s) ≡ false

no_more : (s : Search) → with_results s [] ≡ s
no_more s = ap (λ rs. record s { results = rs }) (append-nil s.results)

accept_all-full :
    (arrivals : List SearchResult) (s : Search) → has_room s ≡ false → accept_all arrivals s ≡ s
unfolding accept_response
accept_all-full [] s h = refl
accept_all-full (r ∷ rest) s h =
    let e : accept_response r s ≡ s = rw h refl in ap (accept_all rest) e ∙ accept_all-full rest s h

pub accept_all-Keeps : (arrivals : List SearchResult) (s : Search) → (n : ℕ) × Keeps s arrivals n
unfolding accept_response
accept_all-Keeps [] s = (
  0,
  record {
    kept = sym (no_more s);
    among = omega arith;
    had_room = λ k h. absurd (omega arith);
    full = λ h. absurd (omega arith);
  },
)
accept_all-Keeps (r ∷ rest) s = elim (Bool-cases (has_room s)) [
  | inr h ↦ (
    0,
    record {
      kept = accept_all-full (r ∷ rest) s h ∙ sym (no_more s);
      among = omega arith;
      had_room = λ k l. absurd (omega arith);
      full = λ l. ap has_room (accept_all-full (r ∷ rest) s h) ∙ h;
    },
  )
  | inl h ↦
      let t = record s { results = s.results ++ (r ∷ []) } in
      let e : accept_response r s ≡ t = rw h refl in
      let (n, x) = accept_all-Keeps rest t in
      let on : (more : List SearchResult) → with_results t more ≡ with_results s (r ∷ more) =
        λ more. ap (λ rs. record s { results = rs }) (append_assoc s.results (r ∷ []) more) in
      (
        suc n,
        record {
          kept = ap (accept_all rest) e ∙ x.kept ∙ on (take n rest);
          among = omega (arith, x.among);
          had_room = room n x on h;
          full = λ l. ap (λ u. has_room (accept_all rest u)) e ∙ x.full (omega arith);
        },
      )
]
  where
    room :
        (n : ℕ)
        → Keeps (record s { results = s.results ++ (r ∷ []) }) rest n
        → ((more : List SearchResult)
            → with_results (record s { results = s.results ++ (r ∷ []) }) more
              ≡ with_results s (r ∷ more))
        → has_room s ≡ true
        → (k : ℕ) → k < suc n
        → has_room (with_results s (take k (r ∷ rest))) ≡ true
    room n x on h zero l = ap has_room (no_more s) ∙ h
    room n x on h (suc k) l = ap has_room (sym (on (take k rest))) ∙ x.had_room k (omega arith)

-- A prefix of the arrivals, of at most so many responses, whose files were too few before its last
-- response; it is the whole, or it is full by one of the two limits.
pub record Shortlist (arrivals kept : List SearchResult) : Type 0 where
  pub size : ℕ
  pub first : kept ≡ take size arrivals
  pub few : length kept ≤ max_search_responses
  pub before_last : total_files (take (size - 1) arrivals) < max_search_files
  pub whole :
      size < length arrivals
      → (length kept ≡ max_search_responses) ⊎ (max_search_files ≤ total_files kept)

room_splits :
    (s : Search)
    → has_room s ≡ true
    → (length s.results < max_search_responses) × (total_files s.results < max_search_files)
room_splits s h = ground arith

-- A new search keeps such a prefix of the responses, whichever arrive.
pub accept_all-Shortlist :
    (token : ℕ) (arrivals : List SearchResult)
    → Shortlist arrivals (accept_all arrivals (record { token = token; results = [] })).results
accept_all-Shortlist token arrivals =
    let start : Search = record { token = token; results = [] } in
    let (n, x) = accept_all-Keeps arrivals start in
    let kept : (accept_all arrivals start).results ≡ take n arrivals = ap (λ s. s.results) x.kept in
    let size : length (accept_all arrivals start).results ≡ n =
      ap length kept ∙ omega (arith, length-take n arrivals, x.among) in
    record {
      size = n;
      first = kept;
      few = few n size (λ k l. x.had_room k l) x.among;
      before_last = last n (λ k l. x.had_room k l);
      whole = λ l.
          let none_left = x.full l in
          ends (accept_all arrivals start) none_left
            (omega (arith, size, few n size (λ k l. x.had_room k l) x.among));
    }
  where
    few :
        (n : ℕ)
        → length (accept_all arrivals (record { token = token; results = [] })).results ≡ n
        → ((k : ℕ) → k < n → has_room (record { token = token; results = take k arrivals }) ≡ true)
        → n ≤ length arrivals
        → length (accept_all arrivals (record { token = token; results = [] })).results ≤ 500
    few zero size room among = omega arith
    few (suc k) size room among =
        let (short, light) =
          room_splits (record { token = token; results = take k arrivals })
            (room k (omega arith)) in
        omega (arith, short, length-take k arrivals)

    last :
        (n : ℕ)
        → ((k : ℕ) → k < n → has_room (record { token = token; results = take k arrivals }) ≡ true)
        → total_files (take (n - 1) arrivals) < 10_000
    last zero room = omega arith
    last (suc k) room =
        let (short, light) =
          room_splits (record { token = token; results = take k arrivals })
            (room k (omega arith)) in
        let e : suc k - 1 ≡ k = omega arith in rw e light

    ends :
        (s : Search)
        → has_room s ≡ false
        → length s.results ≤ 500
        → (length s.results ≡ 500) ⊎ (10_000 ≤ total_files s.results)
    ends s h l = ground arith
