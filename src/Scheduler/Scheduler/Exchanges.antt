-- ===== src/Scheduler/Scheduler/Exchanges.antt =====
-- What bounds the attempts of src/scheduler/index.ts, through the answers of the core.
use roboppi.Base.{ℕ, refl, Bool, true, false, Option, none, some, String, if_holds}
use roboppi.Types.{Job}
use roboppi.Scheduler.RetryPolicy.{Fraction}
use roboppi.Scheduler.Scheduler.{Exchange, Scheduler, update, update_if}
use roboppi.Scheduler.Scheduler.Events.{
  put_back_after, back_off, close, answered, receive_answer, fail_exchange, acknowledge,
}
use roboppi.Scheduler.Scheduler.Bounded.{IsBounded, Sent, update_if-IsBounded, rest-IsBounded}

module _ (m : ℕ) where
  pub back_off-IsBounded :
      (random : Fraction) (job : Job) (o : Option ℕ) (s : Scheduler)
      → IsBounded m s
      → IsBounded m (back_off random job o s)
  unfolding back_off put_back_after update update_if
  back_off-IsBounded random job none s b = rest-IsBounded m s _ refl refl refl b
  back_off-IsBounded random job (some r) s b =
      rest-IsBounded m _ _ refl refl refl (update_if-IsBounded m (some r) _ s (λ i. refl) b)

  close-IsBounded : (id : String) (s : Scheduler) → IsBounded m s → IsBounded m (close id s)
  unfolding close
  close-IsBounded id s b = rest-IsBounded m s _ refl refl refl b

  answered-IsBounded :
      (rejected : Bool) (random : Fraction) (e : Exchange) (s : Scheduler)
      → IsBounded m s
      → IsBounded m (answered rejected random e s)
  unfolding answered
  answered-IsBounded true random e s b =
      back_off-IsBounded random e.job e.info _ (update_if-IsBounded m e.info _ s (λ i. refl) b)
  answered-IsBounded false random e s b = update_if-IsBounded m e.info _ s (λ i. refl) b

  pub receive_answer-IsBounded :
      (id : String) (rejected : Bool) (random : Fraction) (o : Option Exchange) (s : Scheduler)
      → IsBounded m s
      → IsBounded m (receive_answer id rejected random o s)
  unfolding receive_answer
  receive_answer-IsBounded id rejected random none s b = b
  receive_answer-IsBounded id rejected random (some e) s b =
      if_holds (IsBounded m) e.acknowledged
        (λ _. answered-IsBounded rejected random e _ (close-IsBounded id s b)) (λ _. b)

  pub fail_exchange-IsBounded :
      (id : String) (random : Fraction) (o : Option Exchange) (s : Scheduler)
      → IsBounded m s
      → IsBounded m (fail_exchange id random o s)
  unfolding fail_exchange
  fail_exchange-IsBounded id random none s b = b
  fail_exchange-IsBounded id random (some e) s b =
      back_off-IsBounded random e.job e.info _ (close-IsBounded id s b)

  pub acknowledge-IsBounded :
      (id : String) (o : Option Exchange) (s : Scheduler)
      → IsBounded m s
      → IsBounded m (acknowledge id o s).1
  unfolding acknowledge
  acknowledge-IsBounded id none s b = b
  acknowledge-IsBounded id (some e) s b =
      if_holds (λ (o : Sent). IsBounded m o.1) e.acknowledged (λ _. b)
        (λ _. rest-IsBounded m s _ refl refl refl b)
