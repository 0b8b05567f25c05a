-- ===== src/Api/Runs/Stream.antt =====
-- What a client of the event stream is sent.
use insatomcat_webui.Base.{
  ℕ, zero, suc, ◌+◌, String, ◌≡◌, refl, sym, ap, ◌∙◌, inl, inr, Bool, true, false, ◌||◌, Option,
  none, some, is_some, List, [], ◌∷◌, ◌++◌, append_assoc, length, length-append, any, All, arith,
  Bool-cases, Option-cases,
}
use insatomcat_webui.Runs.Models.{RunRecord, finished}
use insatomcat_webui.Runs.Progress.{Summary}
use insatomcat_webui.Runs.Store.{RunStore, load, events, drop, lines_of}
use insatomcat_webui.Api.Runs.{
  Verdict, verdict, Frame, Round, numbered, final_of, closing, after, stream,
}
use insatomcat_webui.Api.Runs.Frames.{
  AllWhole, wholes-drop, Extends, after-after, after-nil, drop-append, length-numbered,
  numbered-append,
}

module _ (run_id : String) where
  -- the events file at a round
  abbrev pub seen : Round → List Summary
  seen r = events run_id 0 r.reading

  events-drop :
      (n : ℕ) (store : RunStore)
      → AllWhole (lines_of run_id store)
      → events run_id n store ≡ drop n (events run_id 0 store)
  unfolding events
  events-drop n store h = wholes-drop n (lines_of run_id store) h

  -- The events file holds nothing but events, and only grows from round to round, after those `before`.
  abbrev pub Grows : List Summary → List Round → Type 0
  Grows before [] = Unit
  Grows before (r ∷ rounds) =
      AllWhole (lines_of run_id r.reading) × Extends before (seen r) × Grows (seen r) rounds

  -- whether a round ends the stream, with a verdict or without one
  abbrev pub judged : Round → Option Verdict
  judged r = final_of (load run_id r.judging)

  -- the events file as the last round saw it that the stream came to
  abbrev last_seen_of : Option Verdict → Bool → List Summary → List Summary → List Summary
  last_seen_of (some v) gone here later = here
  last_seen_of none true here later = here
  last_seen_of none false here later = later

  pub last_seen : List Summary → List Round → List Summary
  last_seen before [] = before
  last_seen before (r ∷ rounds) =
      last_seen_of (judged r) r.gone (seen r) (last_seen (seen r) rounds)

  abbrev ending_of : Option Verdict → Bool → List Frame → List Frame
  ending_of (some v) gone later = Frame.ended v ∷ []
  ending_of none true later = []
  ending_of none false later = later

  pub ending : List Round → List Frame
  ending [] = []
  ending (r ∷ rounds) = ending_of (judged r) r.gone (ending rounds)

  -- A stream that is still open after some rounds goes on as a new one does that is asked for the index
  -- after its last frame.
  pub stream-append :
      (index : ℕ) (rounds rest : List Round)
      → (stream run_id index rounds).1 ≡ false
      → stream run_id index (rounds ++ rest)
        ≡ after
            (stream run_id index rounds).0
            (stream run_id (index + length (stream run_id index rounds).0) rest)
  unfolding stream
  stream-append index [] rest h =
      ap (λ k. stream run_id k rest) (omega arith)
      ∙ sym (after-nil (stream run_id (index + 0) rest))
  stream-append index (r ∷ rounds) rest h = elim (Option-cases (judged r)) [
    | inr (v, e) ↦ absurd (let k = rw e at h in cc k)
    | inl e ↦ elim (Bool-cases r.gone) [
      | inl g ↦ absurd (let k = rw (e, g) at h in cc k)
      | inr g ↦
          let found = events run_id index r.reading in
          let frames = numbered index found in
          let next = index + length found in
          let ih = stream-append next rounds rest (let k = rw (e, g) at h in k) in
          rw (e, g)
            (ap (after frames) ih
              ∙ after-after frames (stream run_id next rounds).0 _
              ∙ ap (λ k. after (frames ++ (stream run_id next rounds).0) (stream run_id k rest))
                  (omega (
                    arith,
                    length-append {0} frames (stream run_id next rounds).0,
                    length-numbered index found,
                  )))
    ]
  ]

  -- the new events of a round, and the index behind them
  drop-seen :
      (offset : ℕ) (before : List Summary) (r : Round)
      → AllWhole (lines_of run_id r.reading)
      → Extends before (seen r)
      → drop offset (seen r)
        ≡ drop offset before ++ events run_id (offset + length (drop offset before)) r.reading
  drop-seen offset before r w (more, e) =
      let index = offset + length (drop offset before) in
      rw (events-drop index r.reading w) (
        ap (drop offset) e
        ∙ drop-append offset before more
        ∙ ap (λ l. drop offset before ++ drop index l) (sym e))

  sent :
      (offset : ℕ) (before : List Summary) (rounds : List Round)
      → Grows before rounds
      → numbered offset (drop offset before)
          ++ (stream run_id (offset + length (drop offset before)) rounds).0
        ≡ numbered offset (drop offset (last_seen before rounds)) ++ ending rounds
  unfolding stream last_seen ending
  sent offset before [] g = refl
  sent offset before (r ∷ rounds) (w, grown, g) =
      let old = drop offset before in
      let index = offset + length old in
      let found = events run_id index r.reading in
      let news = drop-seen offset before r w grown in
      let prefix = ap (numbered offset) news ∙ numbered-append offset old found in
      let next : index + length found ≡ offset + length (drop offset (seen r)) =
        omega (arith, ap length news, length-append {0} old found) in
      let later = stream run_id (index + length found) rounds in
      sym (append_assoc (numbered offset old) (numbered index found) _)
      ∙ ap (λ l. l ++ (closing (judged r) r.gone later).0) (sym prefix)
      ∙ elim (Option-cases (judged r)) [
        | inr (v, e) ↦ rw e
        | inl e ↦ elim (Bool-cases r.gone) [
          | inl h ↦ rw (e, h)
          | inr h ↦
              rw (e, h)
                (ap (λ k. numbered offset (drop offset (seen r)) ++ (stream run_id k rounds).0) next
                  ∙ sent offset (seen r) rounds g)
        ]
      ]

  -- The frames of a stream are the events of the file, from the asked index on, each under its index and
  -- once, as far as the file went when the stream last read it, and then the verdict if a run was found
  -- finished; provided that the file only grows and that every line of it is a whole event. Events that
  -- are appended after the last reading, before the run is found finished, are not among them.
  pub stream-numbered :
      (offset : ℕ) (rounds : List Round)
      → Grows [] rounds
      → (stream run_id offset rounds).0
        ≡ numbered offset (drop offset (last_seen [] rounds)) ++ ending rounds
  unfolding numbered
  stream-numbered zero rounds g =
      ap (λ k. (stream run_id k rounds).0) {x = 0} {y = 0 + 0} (omega arith) ∙ sent zero [] rounds g
  stream-numbered (suc n) rounds g =
      ap (λ k. (stream run_id k rounds).0) {x = suc n} {y = suc n + 0} (omega arith)
      ∙ sent (suc n) [] rounds g

  ends_with :
      (index : ℕ) (rounds : List Round)
      → (frames : List Frame) × ((stream run_id index rounds).0 ≡ frames ++ ending rounds)
        × ((stream run_id index rounds).1 ≡ any (λ r. is_some (judged r) || r.gone) rounds)
  unfolding stream ending
  ends_with index [] = ([], refl, refl)
  ends_with index (r ∷ rounds) =
      let found = events run_id index r.reading in
      elim (Option-cases (judged r)) [
        | inr (v, e) ↦ (numbered index found, rw e, rw e)
        | inl e ↦ elim (Bool-cases r.gone) [
          | inl g ↦ (numbered index found, rw (e, g), rw (e, g))
          | inr g ↦
              let (frames, same, closed) = ends_with (index + length found) rounds in
              (
                numbered index found ++ frames,
                rw (e, g)
                    (ap (λ l. numbered index found ++ l) same
                      ∙ sym (append_assoc (numbered index found) frames (ending rounds))),
                rw (e, g) closed,
              )
        ]
      ]

  verdict_of :
      (o : Option RunRecord) (v : Verdict)
      → final_of o ≡ some v
      → (r : RunRecord) × (finished r ≡ true) × (v ≡ verdict r)
  verdict_of none v e = absurd (cc e)
  verdict_of (some r) v e = elim (Bool-cases (finished r)) [
    | inl f ↦ (r, f, let k = rw f at e in cc k)
    | inr f ↦ absurd (let k = rw f at e in cc k)
  ]

  ending-judged :
      (rounds : List Round)
      → All (λ r. r.gone ≡ false) rounds
      → any (λ r. is_some (judged r)) rounds ≡ true
      → (r : RunRecord) × (finished r ≡ true) × (ending rounds ≡ Frame.ended (verdict r) ∷ [])
  unfolding ending
  ending-judged [] stay h = absurd (cc h)
  ending-judged (r ∷ rounds) (s, stay) h = elim (Option-cases (judged r)) [
    | inr (v, e) ↦ let (q, f, same) = verdict_of (load run_id r.judging) v e in (q, f, rw (e, same))
    | inl e ↦ rw (e, s) (ending-judged rounds stay (let k = rw e at h in k))
  ]

  any-closes :
      (rounds : List Round)
      → any (λ r. is_some (judged r)) rounds ≡ true
      → any (λ r. is_some (judged r) || r.gone) rounds ≡ true
  any-closes [] h = absurd (cc h)
  any-closes (r ∷ rounds) h = elim (Option-cases (judged r)) [
    | inr (v, e) ↦ rw e
    | inl e ↦ let k = any-closes rounds (let m = rw e at h in m) in rw (e, k) (ground arith)
  ]

  -- Once a round finds the run finished, the stream of a client that stays has returned, and its last
  -- frame tells how a finished run ended.
  pub stream-ended :
      (index : ℕ) (rounds : List Round)
      → All (λ r. r.gone ≡ false) rounds
      → any (λ r. is_some (judged r)) rounds ≡ true
      → ((stream run_id index rounds).1 ≡ true)
        × ((r : RunRecord) × (frames : List Frame) × (finished r ≡ true)
            × ((stream run_id index rounds).0 ≡ frames ++ Frame.ended (verdict r) ∷ []))
  stream-ended index rounds stay h =
      let (frames, same, closed) = ends_with index rounds in
      let (r, f, e) = ending-judged rounds stay h in
      (closed ∙ any-closes rounds h, (r, frames, f, same ∙ ap (λ l. frames ++ l) e))
