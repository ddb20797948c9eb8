-- ===== src/Http/Requests.antt =====
-- A request changes the client only by starting it: what ensure_started keeps, get and post keep.
use mbed_ce_st87m.Common.{
  ℕ, ◌≡◌, refl, true, false, Option, none, some, List, [], ◌∷◌, ℤ, is_neg, below,
}
use mbed_ce_st87m.At.{NsapiError, is_ok, Modem, Action, ◌>>=◌}
use mbed_ce_st87m.At.Keeps.{Keeps, Keeps-if, Keeps-bind, Keeps-pure, keeps_rules}
use mbed_ce_st87m.Http.{
  Http, start, send_method, send_header, send_body, accept, read_data, read_response,
  ensure_started, on_success, finish, get, send_content_type, post,
}
use mbed_ce_st87m.Http.Reply.{Response}

module _ (modem : Modem) (I : Http → Type 0) (starts : Keeps I (ensure_started modem)) where
  accept-Keeps : (n : ℕ) (got : Option (List ℕ)) (r : Response) → Keeps I (accept modem n got r)
  unfolding accept
  accept-Keeps n none r = search keeps_rules
  accept-Keeps n (some got) r = search keeps_rules depth 20

  finish-Keeps : Keeps I (finish modem)
  unfolding read_response read_data
  finish-Keeps = search (keeps_rules, accept-Keeps) depth 40

  send_content_type-Keeps : (value : Option (List ℕ)) → Keeps I (send_content_type modem value)
  unfolding send_content_type send_header
  send_content_type-Keeps none = search keeps_rules
  send_content_type-Keeps (some []) = search keeps_rules
  send_content_type-Keeps (some (c ∷ cs)) = search keeps_rules depth 20

  on_success-Keeps :
      (r : Response) (m : Action Http NsapiError) (rest : Action Http Response)
      → Keeps I m
      → Keeps I rest
      → Keeps I (on_success modem r m rest)
  unfolding on_success
  on_success-Keeps r m rest km kr =
      Keeps-bind _ _ km (λ err. Keeps-if (is_ok err) _ _ kr (Keeps-pure _))

  pub get-Keeps : (host path : List ℕ) (r : Response) → Keeps I (get modem host path r)
  unfolding get send_method send_body
  get-Keeps host path r = on_success-Keeps r _ _ starts (
      on_success-Keeps r _ _ (search keeps_rules depth 20)
        (on_success-Keeps r _ _ (search keeps_rules depth 20) finish-Keeps))

  pub post-Keeps :
      (host path : List ℕ) (content_type body : Option (List ℕ)) (len : ℕ) (r : Response)
      → Keeps I (post modem host path content_type body len r)
  unfolding post send_method send_body
  post-Keeps host path content_type body len r = on_success-Keeps r _ _ starts (
      on_success-Keeps r _ _ (search keeps_rules depth 20) (
        on_success-Keeps r _ _ (send_content_type-Keeps content_type)
          (on_success-Keeps r _ _ (search keeps_rules depth 20) finish-Keeps)))

-- A client that is on no socket is not started, and one that runs runs on.
module _ (modem : Modem) where
  pub ensure_started_stopped :
      Keeps (λ h. (h.http_started ≡ false) × (is_neg h.socket_id ≡ true)) (ensure_started modem)
  unfolding start ◌>>=◌
  ensure_started_stopped = record { at = λ h t (stopped, off). rw (stopped, off) (refl, off) }

  pub ensure_started_running :
      (k : ℤ)
      → Keeps
          (λ h. (h.http_started ≡ true) × (h.socket_id ≡ k) × (below k 7 ≡ true))
          (ensure_started modem)
  unfolding start ◌>>=◌
  ensure_started_running k = record { at = λ h t (runs, on, known). rw runs (refl, on, known) }
