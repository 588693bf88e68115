-- ===== src/Commands/Serve/Stopped.antt =====
-- How a run of the server command ends.
use secure_ledger.Prelude.{
  ◌≡◌, refl, sym, ap, ◌∙◌, List, [], ◌∷◌, ◌++◌, none, some, ok, err, Error, Result, Done, ◌↔◌,
  arith, Context,
}
use secure_ledger.Prelude.Exec.{◌>>=◌}
use secure_ledger.Commands.{Environment, Backend, in_memory, postgres, open_repository, setup_of}
use secure_ledger.Commands.Serve.{
  Event, opened_repository, started_worker, started_dispatcher, started_server, shut_down,
  closed_repository, Stop, requested, failed, Course, await_stop, serve_setup, run, main,
  http_server, exit_code, shutdown_timeout, closing,
}

-- Who delivers the risk events of a repository.
abbrev pub delivery : Backend → Event
delivery in_memory = started_dispatcher 128
delivery postgres = started_worker

-- The wait for the open requests, which only a signal brings about.
abbrev pub drained : Stop → List Event
drained requested = shut_down shutdown_timeout ∷ []
drained (failed e) = []

abbrev pub verdict : Stop → Context → Done
verdict (failed e) shutdown = err e
verdict requested none = ok tt
verdict requested (some e) = err e

abbrev pub serving : Environment → Course → Backend → List Event
serving env course backend =
    opened_repository backend
    ∷ delivery backend
    ∷ started_server (http_server (setup_of env backend))
    ∷ (drained course.stop ++ closed_repository backend ∷ [])

served :
    (env : Environment) (backend : Backend) (opened : Context) (stop : Stop) (shutdown : Context)
    → let course : Course = record { opened = opened; stop = stop; shutdown = shutdown } in
      closing backend (serve_setup course (setup_of env backend) (opened_repository backend ∷ []))
      ≡ (verdict stop shutdown, serving env course backend)
unfolding serve_setup await_stop ◌>>=◌
served env in_memory opened requested none = refl
served env in_memory opened requested (some e) = refl
served env in_memory opened (failed x) shutdown = refl
served env postgres opened requested none = refl
served env postgres opened requested (some e) = refl
served env postgres opened (failed x) shutdown = refl

-- A run that opens its repository starts the delivery that this repository has, then the server. It waits
-- for the open requests when it is asked to stop, and closes the repository last, whatever ended it.
pub run-closes :
    (env : Environment) (course : Course) (backend : Backend)
    → open_repository env course.opened ≡ ok backend
    → run env course [] ≡ (verdict course.stop course.shutdown, serving env course backend)
unfolding run
run-closes env course backend h =
    rw (h, run) (served env backend course.opened course.stop course.shutdown)

-- The repository opened, a signal ended the serving, and the shutdown returned no error.
abbrev pub HasStopped : Environment → Course → Type 0
HasStopped env course =
    (backend : Backend) × (open_repository env course.opened ≡ ok backend)
    × (course.stop ≡ requested)
    × (course.shutdown ≡ none)

-- The process exits with 0 exactly when its repository opens, a signal ends the serving, and the shutdown
-- returns no error. A run whose repository does not open starts nothing.
pub main_iff :
    (env : Environment) (course : Course)
    → ((main env course ≡ 0) ↔ HasStopped env course)
      × ((e : Error) → open_repository env course.opened ≡ err e → run env course [] ≡ (err e, []))
unfolding main run
main_iff env course =
    ((λ h. forth (open_repository env course.opened) refl h, back), λ e h. refused e h)
  where
    refused :
        (e : Error) → open_repository env course.opened ≡ err e → run env course [] ≡ (err e, [])
    refused e h = rw (h, run) refl

    told :
        (stop : Stop) (shutdown : Context)
        → exit_code (verdict stop shutdown) ≡ 0
        → (stop ≡ requested) × (shutdown ≡ none)
    told requested none h = (refl, refl)
    told requested (some e) h = absurd (omega (arith, h))
    told (failed e) shutdown h = absurd (omega (arith, h))

    forth :
        (found : Result Backend)
        → open_repository env course.opened ≡ found
        → main env course ≡ 0
        → HasStopped env course
    forth (ok backend) e h =
        let (asked, done) =
          told course.stop course.shutdown
            (sym (ap (λ r. exit_code r.0) (run-closes env course backend e)) ∙ h) in
        (backend, e, asked, done)
    forth (err x) e h = absurd (omega (arith, (sym (ap (λ r. exit_code r.0) (refused x e)) ∙ h)))

    back : HasStopped env course → main env course ≡ 0
    back (backend, e, s, d) =
        ap (λ r. exit_code r.0) (run-closes env course backend e) ∙ rw (s, d) refl
