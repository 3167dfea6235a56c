-- ===== src/Delivery/Webhooks.antt =====
-- models/qp_dispatching.go: what `Failure` and `Success` of a web hook say of its past. An attempt is seen
-- from outside: the message was not sent at all, its sending failed at some time, or it succeeded.
use quepasa.Prelude.{
  ℕ, zero, suc, ◌≡◌, refl, ap, ◌∙◌, Bool, false, ◌||◌, Option, none, some, List, [], ◌∷◌, arith,
  ◌==◌, if◌then◌else◌, is_some,
}
use quepasa.Dispatching.{QpDispatching}
use quepasa.Delivery.{
  Outside, Delivery, Destination, HttpAnswer, no_response, response, answer_error, first_failure,
  send_webhook,
}

pub data Attempt : Type 0 where
  unsent : Attempt
  failed : ℕ → Attempt
  succeeded : ℕ → Attempt

-- The status is 200, and the client gave no error.
unfoldable pub is_accepted : HttpAnswer → Bool
is_accepted (no_response error) = false
is_accepted (response status none) = status == 200
is_accepted (response status (some error)) = false

-- Of the attempts, the latest first: the last success, and the failures since.
unfoldable pub last_success : List Attempt → Option ℕ
last_success [] = none
last_success (unsent ∷ l) = last_success l
last_success (failed t ∷ l) = last_success l
last_success (succeeded t ∷ l) = some t

unfoldable pub failures_since : List Attempt → List ℕ
failures_since [] = []
failures_since (unsent ∷ l) = failures_since l
failures_since (failed t ∷ l) = t ∷ failures_since l
failures_since (succeeded t ∷ l) = []

unfoldable pub last_element : List ℕ → Option ℕ
last_element [] = none
last_element (t ∷ []) = some t
last_element (t ∷ u ∷ l) = last_element (u ∷ l)

last_element-some : (t : ℕ) (l : List ℕ) → (u : ℕ) × (last_element (t ∷ l) ≡ some u)
unfolding last_element
last_element-some t [] = (t, refl)
last_element-some t (u ∷ l) = last_element-some u l

first_failure-last_element :
    (t : ℕ) (l : List ℕ) → first_failure t (last_element l) ≡ last_element (t ∷ l)
unfolding last_element first_failure
first_failure-last_element t [] = refl
first_failure-last_element t (u ∷ l) =
    let (v, e) = last_element-some u l in rw (e, first_failure) refl

-- What a destination notes of its attempts, the latest first.
pub record IsNoted (past : List Attempt) (d : Destination) : Type 0 where
  pub failure_is : d.failure ≡ last_element (failures_since past)
  pub success_is : d.success ≡ last_success past

module _ {ℓ} {P : Type ℓ} {W : Type 0} (out : Outside P W) where
  unfoldable pub attempt : QpDispatching → W → W × Attempt
  unfolding is_accepted
  attempt d w =
      let (w', answer) = out.post d.connection_string w in
      if is_some (out.marshal d w) || is_some (out.new_request d.connection_string w)
      then (w, unsent)
      else if is_accepted answer
      then (w', succeeded (out.now w'))
      else (w', failed (out.now w'))

  -- A number of attempts, the latest first.
  unfoldable pub attempts : ℕ → QpDispatching → W → W × List Attempt
  unfolding attempt
  attempts zero d w = (w, [])
  attempts (suc n) d w =
      let (w', past) = attempts n d w in let (w'', a) = attempt d w' in (w'', a ∷ past)

  -- That many messages, one after the other.
  unfoldable pub send_many : ℕ → Destination → Delivery P W → Destination × Delivery P W
  unfolding send_webhook
  send_many zero d s = (d, s)
  send_many (suc n) d s =
      let (d', s') = send_many n d s in
      let (d'', s'', error) = send_webhook out d' (record s' { exceptions = [] }) in (d'', s'')

  after_attempt : Attempt → Destination → Destination
  after_attempt unsent d = d
  after_attempt (failed t) d = record d { failure = first_failure t d.failure }
  after_attempt (succeeded t) d = record d { failure = none; success = some t }

  send_webhook-attempt :
      (d : Destination) (s : Delivery P W)
      → ((send_webhook out d s).0 ≡ after_attempt (attempt d.dispatching s.world).1 d)
        × ((send_webhook out d s).1.world ≡ (attempt d.dispatching s.world).0)
  unfolding send_webhook attempt after_attempt is_accepted answer_error first_failure
  send_webhook-attempt d s = (ground arith, ground arith)

  after_attempt-IsNoted :
      (a : Attempt) (past : List Attempt) (d : Destination)
      → IsNoted past d
      → IsNoted (a ∷ past) (after_attempt a d)
  unfolding after_attempt last_success failures_since last_element
  after_attempt-IsNoted unsent past d v = record {
    failure_is = v.failure_is;
    success_is = v.success_is;
  }
  after_attempt-IsNoted (failed t) past d v = record {
    failure_is =
        ap (first_failure t) v.failure_is ∙ first_failure-last_element t (failures_since past);
    success_is = v.success_is;
  }
  after_attempt-IsNoted (succeeded t) past d v = record { failure_is = refl; success_is = refl }

  after_attempt-dispatching :
      (a : Attempt) (d : Destination) → (after_attempt a d).dispatching ≡ d.dispatching
  unfolding after_attempt
  after_attempt-dispatching unsent d = refl
  after_attempt-dispatching (failed t) d = refl
  after_attempt-dispatching (succeeded t) d = refl

  -- However many messages are sent to a web hook that has no past, and whatever the outside answers:
  -- `Success` is the time of the last attempt that succeeded, `Failure` the time of the first attempt
  -- that failed after it; an attempt whose message or request could not be made changes neither.
  pub send_many-IsNoted :
      (n : ℕ) (d : Destination) (s : Delivery P W)
      → d.failure ≡ none
      → d.success ≡ none
      → IsNoted (attempts n d.dispatching s.world).1 (send_many n d s).0
        × ((send_many n d s).0.dispatching ≡ d.dispatching)
        × ((send_many n d s).1.world ≡ (attempts n d.dispatching s.world).0)
  unfolding send_many attempts last_success failures_since last_element
  send_many-IsNoted zero d s f g = (record { failure_is = f; success_is = g }, refl, refl)
  send_many-IsNoted (suc n) d s f g =
      let (noted, same_dispatching, same_world) = send_many-IsNoted n d s f g in
      let (after, world) =
        send_webhook-attempt (send_many n d s).0 (record (send_many n d s).1 { exceptions = [] }) in
      (
        rw (after, same_dispatching, same_world) (after_attempt-IsNoted _ _ _ noted),
        rw (after, after_attempt-dispatching, same_dispatching) refl,
        rw (world, same_dispatching, same_world) refl,
      )
