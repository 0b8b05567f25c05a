-- ===== src/Runs/Execution/Callbacks.antt =====
-- What the callbacks of a run leave of the service.
use insatomcat_webui.Base.{
  String, ◌≡◌, refl, ap, ◌∙◌, false, Option, none, some, List, [], ◌∷◌, ◌==◌, lookup,
  lookup-insert_ne,
}
use insatomcat_webui.Runs.Models.{RunProgress}
use insatomcat_webui.Runs.Progress.{Event, apply_events, Summary, summarise}
use insatomcat_webui.Runs.Store.{RunStore, save, load, append_event, append_log}
use insatomcat_webui.Runs.Service.{ServiceState}
use insatomcat_webui.Runs.Execution.{
  Thread, summarised, on_event, on_output, Callback, callback, callbacks,
}

abbrev pub events_of : List Callback → List Event
events_of [] = []
events_of (Callback.event e ∷ cs) = e ∷ events_of cs
events_of (Callback.output text ∷ cs) = events_of cs

module _ (cut : String → String) where
  summarised_keeps :
      (id : String) (o : Option Summary) (store : RunStore)
      → ((summarised id o store).records ≡ store.records)
        × ((summarised id o store).lock ≡ store.lock)
  unfolding append_event
  summarised_keeps id none store = (refl, refl)
  summarised_keeps id (some summary) store = (refl, refl)

  -- What the callbacks of a run leave: its identifier, the lock, the set of the runs that are asked to
  -- stop and the records of other runs, and the progress that the events make.
  abbrev pub Follows : List Callback → Thread → ServiceState → Thread × ServiceState → Type 0
  Follows cs t s (t', s') =
      (t'.run.id ≡ t.run.id)
      × (t'.progress ≡ apply_events t.progress (events_of cs))
      × (s'.store.lock ≡ s.store.lock)
      × (s'.stopping ≡ s.stopping)
      × ((other : String) → (t.run.id == other) ≡ false → load other s'.store ≡ load other s.store)

  pub callback_lem :
      (c : Callback) (t : Thread) (s : ServiceState) → Follows (c ∷ []) t s (callback cut c (t, s))
  unfolding callback on_event on_output apply_events load save append_log
  callback_lem (Callback.output text) t s = (refl, refl, refl, refl, λ other ne. refl)
  callback_lem (Callback.event e) t s =
      let (kept, locked) = summarised_keeps t.run.id (summarise cut e) s.store in
      (
        refl,
        refl,
        locked,
        refl,
        λ other ne. lookup-insert_ne t.run.id other _ _ ne ∙ ap (lookup other) kept,
      )

  events_split :
      (c : Callback) (cs : List Callback) (q : RunProgress)
      → apply_events (apply_events q (events_of (c ∷ []))) (events_of cs)
        ≡ apply_events q (events_of (c ∷ cs))
  unfolding apply_events
  events_split (Callback.output text) cs q = refl
  events_split (Callback.event e) cs q = refl

  pub callbacks_lem :
      (cs : List Callback) (t : Thread) (s : ServiceState)
      → Follows cs t s (callbacks cut cs (t, s))
  unfolding callbacks apply_events
  callbacks_lem [] t s = (refl, refl, refl, refl, λ other ne. refl)
  callbacks_lem (c ∷ cs) t s =
      let p = callback cut c (t, s) in
      let (named, made, locked, kept, others) = callback_lem c t s in
      let (named', made', locked', kept', others') = callbacks_lem cs p.0 p.1 in
      (
        named' ∙ named,
        made' ∙ ap (λ q. apply_events q (events_of cs)) made ∙ events_split c cs t.progress,
        locked' ∙ locked,
        kept' ∙ kept,
        λ other ne. others' other (rw named ne) ∙ others other ne,
      )
