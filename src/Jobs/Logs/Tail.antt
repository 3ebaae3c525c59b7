-- ===== src/Jobs/Logs/Tail.antt =====
-- services/jobs/state_store.py: tail_logs gives the end of what get_logs gives.
use super_opencode.Base.{
  render, is_plain, drop-Cut, split_lines-render, split_lines-plain, file_lines-render, ℕ, zero,
  suc, ◌+◌, ◌-◌, ◌*◌, ◌≤◌, ◌<◌, ◌≡◌, ◌∙◌, refl, sym, ap, Bool, true, false, not, ◌&&◌, ◌⊎◌,
  length-append, Option, some, is_some, List, [], ◌∷◌, ◌++◌, min, leb, ltb, ◌==◌, is_empty, length,
  drop, take_last, count_if, all, Text, strip, split_lines, file_lines, append_assoc, arith, ltb→lt,
  Bool-cases, inl, inr, length-append,
}
use super_opencode.Jobs.Logs.{events, get_logs, read_span, widen, tail_events, tail_logs, chunk}

module _ {E : Type 0} (parse : Text → Option E) where
  -- lines that have an event each
  abbrev pub is_event : Text → Bool
  is_event l = not (is_empty (strip l)) && is_some (parse l)

  events-append : (xs ys : List Text) → events parse (xs ++ ys) ≡ events parse xs ++ events parse ys
  unfolding events
  events-append [] ys = refl
  events-append (l ∷ ls) ys = ground (arith, events-append ls ys)

  length-events : (ls : List Text) → all is_event ls ≡ true → length (events parse ls) ≡ length ls
  unfolding events
  length-events [] h = refl
  length-events (l ∷ ls) h = ground (arith, length-events ls, h)

  take_last-append :
      (n : ℕ) (xs ys : List E) → n ≤ length ys → take_last n (xs ++ ys) ≡ take_last n ys
  take_last-append n [] ys h = refl
  take_last-append n (x ∷ xs) ys h =
      let one_more : length (x ∷ (xs ++ ys)) - n ≡ suc (length (xs ++ ys) - n) =
        omega (arith, h, length-append xs ys) in
      ap (λ k. drop k (x ∷ (xs ++ ys))) one_more ∙ take_last-append n xs ys h

-- What is read: the whole file, or an end of it with more newlines than events are asked for.
record IsPart (max_events : ℕ) (file : Text) (n : ℕ) : Type 0 where
  inside : n < length file
  many : max_events < count_if (λ c. c == 10) (drop n file)

IsRead : ℕ → Text → Text × Bool → Type 0
IsRead max_events file r =
    (r ≡ (file, true)) ⊎ ((n : ℕ) × (r ≡ (drop n file, false)) × IsPart max_events file n)

widen-IsRead :
    (fuel max_events span : ℕ) (file : Text)
    → length file < fuel + min span (length file)
    → min 1 (length file) ≤ span
    → (r : Text × Bool) × (widen fuel max_events span file ≡ some r) × IsRead max_events file r
unfolding widen IsRead
widen-IsRead zero max_events span file enough some_span = ground (arith, enough)
widen-IsRead (suc fuel) max_events span file enough some_span =
    elim (Bool-cases (leb (length file) span)) [
      | inl all_of ↦
          let whole : length file - span ≡ 0 = ground (arith, all_of) in
          ((read_span span file, true), rw all_of refl, inl (ap (λ k. (drop k file, true)) whole))
      | inr part ↦
          elim (Bool-cases (ltb max_events (count_if (λ c. c == 10) (read_span span file)))) [
            | inl many ↦ (
              (read_span span file, false),
              rw part (rw many refl),
              inr (
                length file - span,
                refl,
                record { inside = ground (arith, part, some_span); many = ltb→lt _ _ many },
              ),
            )
            | inr few ↦
                let wider = min (length file) (span * 4) in
                let (r, found, is_read) =
                  widen-IsRead fuel max_events wider file (ground (arith, enough, part, some_span))
                    (ground (arith, part, some_span)) in
                (r, rw part (rw few found), is_read)
          ]
    ]

count-append :
    (xs ys : Text)
    → count_if (λ c. c == 10) (xs ++ ys) ≡ count_if (λ c. c == 10) xs + count_if (λ c. c == 10) ys
count-append [] ys = omega arith
count-append (x ∷ xs) ys = ground (arith, count-append xs ys)

count-plain : (l : Text) → is_plain l ≡ true → count_if (λ c. c == 10) l ≡ 0
count-plain [] h = refl
count-plain (c ∷ l) h = ground (arith, count-plain l, h)

count-render :
    (ls : List Text) → all is_plain ls ≡ true → count_if (λ c. c == 10) (render ls) ≡ length ls
unfolding render
count-render [] h = refl
count-render (l ∷ ls) h =
    ground (arith, count-append l (10 ∷ render ls), count-plain l, count-render ls, h)

all-behind :
    (p : Text → Bool) (before : List Text) (cut : Text) (behind ls : List Text)
    → ls ≡ before ++ cut ∷ behind
    → all p ls ≡ true
    → all p behind ≡ true
all-behind p before cut behind ls e h = go before (sym (ap (all p) e) ∙ h)
  where
    go : (before : List Text) → all p (before ++ cut ∷ behind) ≡ true → all p behind ≡ true
    go [] h = ground (arith, h)
    go (b ∷ bs) h = go bs (ground (arith, h))

drop_all : {A : Type 0} (xs : List A) → drop (length xs) xs ≡ []
drop_all [] = refl
drop_all (x ∷ xs) = drop_all xs

take_last_zero : {A : Type 0} (n : ℕ) (xs : List A) → n ≡ 0 → take_last n xs ≡ []
take_last_zero n xs none_of =
    let all_of : length xs - n ≡ length xs = omega (arith, none_of) in
    ap (λ k. drop k xs) all_of ∙ drop_all xs

module _ {E : Type 0} (parse : Text → Option E) where
  part_events :
      (max_events n : ℕ) (ls : List Text)
      → all is_plain ls ≡ true
      → all (is_event parse) ls ≡ true
      → IsPart max_events (render ls) n
      → tail_events parse max_events (drop n (render ls), false)
        ≡ take_last max_events (events parse ls)
  unfolding tail_events
  part_events max_events n ls plain valid part =
      let c = drop-Cut n ls plain part.inside in
      let plain' = all-behind is_plain c.before c.cut c.behind ls c.lines plain in
      let valid' = all-behind (is_event parse) c.before c.cut c.behind ls c.lines valid in
      let enough : max_events ≤ length (events parse c.behind) = omega (
        arith,
        part.many,
        ap (count_if (λ x. x == 10)) c.text,
        count-append c.fragment (10 ∷ render c.behind),
        count-plain c.fragment c.plain,
        count-render c.behind plain',
        length-events parse c.behind valid',
      ) in
      let split : split_lines (drop n (render ls)) ≡ c.fragment ∷ c.behind =
        ap split_lines c.text
        ∙ split_lines-plain c.fragment (render c.behind) c.plain
        ∙ ap (λ r. c.fragment ∷ r) (split_lines-render c.behind plain') in
      ap (λ r. take_last max_events (events parse (drop 1 r))) split
      ∙ sym (
          ap (λ l. take_last max_events (events parse l)) c.lines
          ∙ ap (λ l. take_last max_events (events parse l))
              (sym (append_assoc c.before (c.cut ∷ []) c.behind))
          ∙ ap (take_last max_events) (events-append parse (c.before ++ c.cut ∷ []) c.behind)
          ∙ take_last-append parse max_events (events parse (c.before ++ c.cut ∷ []))
              (events parse c.behind) enough)

  read_events :
      (max_events : ℕ) (ls : List Text) (r : Text × Bool)
      → all is_plain ls ≡ true
      → all (is_event parse) ls ≡ true
      → IsRead max_events (render ls) r
      → tail_events parse max_events r
        ≡ take_last max_events (events parse (file_lines (render ls)))
  unfolding IsRead tail_events
  read_events max_events ls r plain valid (inl whole) =
      ap (tail_events parse max_events) whole
      ∙ ap (λ l. take_last max_events (events parse l))
          (split_lines-render ls plain ∙ sym (file_lines-render ls plain))
  read_events max_events ls r plain valid (inr (n, part, is_part)) =
      ap (tail_events parse max_events) part
      ∙ part_events max_events n ls plain valid is_part
      ∙ ap (λ l. take_last max_events (events parse l)) (sym (file_lines-render ls plain))

  -- The log events of a job that the board reads backwards from the end of the file are the last ones of
  -- those that the detail view reads from the whole file, and the loop that widens the part to read ends:
  -- for any file whose lines are events, of which none has a line break within, and any number of events.
  pub tail_logs_lem :
      (max_events : ℕ) (ls : List Text)
      → all is_plain ls ≡ true
      → all (is_event parse) ls ≡ true
      → tail_logs parse max_events (render ls)
        ≡ some (take_last max_events (get_logs parse (render ls)))
  unfolding tail_logs get_logs
  tail_logs_lem max_events ls plain valid = elim (Bool-cases (max_events == 0)) [
    | inl zero_events ↦
        rw zero_events (ap some (sym (take_last_zero max_events _ (ground (arith, zero_events)))))
    | inr some_events ↦
        let file = render ls in
        let (r, found, is_read) =
          widen-IsRead (suc (length file)) max_events (min chunk (length file)) file (omega arith)
            (omega arith) in
        rw some_events (rw found (ap some (read_events max_events ls r plain valid is_read)))
  ]
