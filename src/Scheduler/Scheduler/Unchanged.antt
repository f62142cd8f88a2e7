-- ===== src/Scheduler/Scheduler/Unchanged.antt =====
-- What leaves the map of jobs of src/scheduler/index.ts as it was.
use roboppi.Base.{ℕ, String, ◌≡◌, refl, ◌∙◌, Bool, true, false, Option, none, some, List, if_holds}
use roboppi.Types.{Job}
use roboppi.Ipc.Messages.{InboundMessage}
use roboppi.Scheduler.JobQueue
use roboppi.Scheduler.JobQueue.{JobQueue}
use roboppi.Scheduler.RetryPolicy.{Fraction}
use roboppi.Scheduler.Scheduler.{
  InFlightJobInfo, Exchange, Timer, Loop, looping, ended, waiting, notified, Scheduler, requeue,
  notify, update, update_if, taken, process_next, turn_at,
}
use roboppi.Scheduler.Scheduler.Events.{
  release, put_back_after, back_off, answered, close, acknowledge, receive_answer, fail_exchange,
  fired, start,
}

abbrev Sent : Type 0
Sent = List InboundMessage × Scheduler

info-taken :
    (x y : String) (o : Option (Job × JobQueue)) (s : Scheduler)
    → (taken x y o s).1.job_info ≡ s.job_info
unfolding taken
info-taken x y none s = refl
info-taken x y (some (job, q)) s = refl

info-process_next : (x y : String) (s : Scheduler) → (process_next x y s).1.job_info ≡ s.job_info
unfolding process_next
info-process_next x y s =
    if_holds (λ (o : Sent). o.1.job_info ≡ s.job_info) s.connected
      (λ _. info-taken x y (JobQueue.dequeue s.queue) s) (λ _. refl)

pub info-turn_at :
    (l : Loop) (x y : String) (s : Scheduler) → (turn_at l x y s).1.job_info ≡ s.job_info
unfolding turn_at
info-turn_at ended x y s = refl
info-turn_at waiting x y s = refl
info-turn_at looping x y s =
    if_holds (λ (o : Sent). o.1.job_info ≡ s.job_info) s.running
      (λ _.
        if_holds (λ (o : Sent). o.1.job_info ≡ s.job_info) (JobQueue.is_empty s.queue) (λ _. refl)
          (λ _. info-process_next x y s))
      (λ _. refl)
info-turn_at notified x y s =
    if_holds (λ (o : Sent). o.1.job_info ≡ s.job_info) s.running
      (λ _. info-process_next x y (record s { loop = looping })) (λ _. refl)

pub info-acknowledge :
    (id : String) (o : Option Exchange) (s : Scheduler)
    → (acknowledge id o s).1.job_info ≡ s.job_info
unfolding acknowledge
info-acknowledge id none s = refl
info-acknowledge id (some e) s =
    if_holds (λ (o : Sent). o.1.job_info ≡ s.job_info) e.acknowledged (λ _. refl) (λ _. refl)

pub info-update_if :
    (o : Option ℕ) (f : InFlightJobInfo → InFlightJobInfo) (s : Scheduler)
    → (update_if o f s).job_info ≡ s.job_info
unfolding update_if update
info-update_if none f s = refl
info-update_if (some r) f s = refl

info-back_off :
    (random : Fraction) (job : Job) (o : Option ℕ) (s : Scheduler)
    → (back_off random job o s).job_info ≡ s.job_info
unfolding back_off put_back_after update
info-back_off random job none s = refl
info-back_off random job (some r) s = refl

info-answered :
    (rejected : Bool) (random : Fraction) (e : Exchange) (s : Scheduler)
    → (answered rejected random e s).job_info ≡ s.job_info
unfolding answered
info-answered true random e s = info-back_off random e.job e.info _ ∙ info-update_if e.info _ s
info-answered false random e s = info-update_if e.info _ s

pub info-receive_answer :
    (id : String) (rejected : Bool) (random : Fraction) (o : Option Exchange) (s : Scheduler)
    → (receive_answer id rejected random o s).job_info ≡ s.job_info
unfolding receive_answer close
info-receive_answer id rejected random none s = refl
info-receive_answer id rejected random (some e) s =
    if_holds (λ (t : Scheduler). t.job_info ≡ s.job_info) e.acknowledged
      (λ _. info-answered rejected random e (close id s)) (λ _. refl)

pub info-fail_exchange :
    (id : String) (random : Fraction) (o : Option Exchange) (s : Scheduler)
    → (fail_exchange id random o s).job_info ≡ s.job_info
unfolding fail_exchange close
info-fail_exchange id random none s = refl
info-fail_exchange id random (some e) s = info-back_off random e.job e.info (close id s)

pub info-release : (key : Option String) (s : Scheduler) → (release key s).job_info ≡ s.job_info
unfolding release
info-release none s = refl
info-release (some key) s = refl

pub info-fired : (o : Option Timer) (s : Scheduler) → (fired o s).job_info ≡ s.job_info
unfolding fired requeue notify
info-fired none s = refl
info-fired (some t) s =
    if_holds (λ (t : Scheduler). t.job_info ≡ s.job_info) s.running (λ _. refl) (λ _. refl)

pub info-start : (spawned : Bool) (s : Scheduler) → (start spawned s).job_info ≡ s.job_info
unfolding start
info-start spawned s =
    if_holds (λ (t : Scheduler). t.job_info ≡ s.job_info) s.running (λ _. refl)
      (λ _. if_holds (λ (t : Scheduler). t.job_info ≡ s.job_info) spawned (λ _. refl) (λ _. refl))

pub objects-release : (key : Option String) (s : Scheduler) → (release key s).objects ≡ s.objects
unfolding release
objects-release none s = refl
objects-release (some key) s = refl
