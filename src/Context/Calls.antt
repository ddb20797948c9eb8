-- ===== src/Context/Calls.antt =====
-- The public operations of a context, with the requests on its HTTP client, and sequences of them.
use mbed_ce_st87m.Common.{ℕ, Bool, Option, List, [], ◌∷◌}
use mbed_ce_st87m.At.{Action, pure, ◌>>=◌, ◌>>◌}
use mbed_ce_st87m.Http.{Http, get, post}
use mbed_ce_st87m.Http.Reply.{Response}
use mbed_ce_st87m.Context.{
  Context, Outside, modem_of, on_http, get_http_client, close_all, http_close, http_open,
  get_context_ip_address, destroy,
}
use mbed_ce_st87m.Context.Select.{get_context, deactivate_context}

pub data ContextCall : Type 0 where
  choose deactivate close_sockets close_http release : ContextCall
  ask_address : Bool → ContextCall
  open_http : Option (List ℕ) → ℕ → Bool → ContextCall
  fetch : List ℕ → List ℕ → Response → ContextCall
  submit : List ℕ → List ℕ → Option (List ℕ) → Option (List ℕ) → ℕ → Response → ContextCall

module _ {P : Type 0} (out : Outside P) where
  -- A request on the client that get_http_client hands out.
  unfoldable pub on_client : Action Http Response → Action (Context P) (Unit {0})
  on_client m = do http ← get_http_client out; _ ← on_http http m; pure tt

  unfoldable pub run : ContextCall → Action (Context P) (Unit {0})
  run ContextCall.choose = do _ ← get_context out; pure tt
  run ContextCall.deactivate = deactivate_context out
  run ContextCall.close_sockets = do _ ← close_all out; pure tt
  run ContextCall.close_http = do _ ← http_close out; pure tt
  run ContextCall.release = destroy out
  run (ContextCall.ask_address b) = do _ ← get_context_ip_address out b; pure tt
  run (ContextCall.open_http host port use_tls) = do _ ← http_open out host port use_tls; pure tt
  run (ContextCall.fetch host path r) = on_client (get (modem_of out) host path r)
  run (ContextCall.submit host path content_type body len r) =
      on_client (post (modem_of out) host path content_type body len r)

  unfoldable pub run_all : List ContextCall → Action (Context P) (Unit {0})
  run_all [] = pure tt
  run_all (c ∷ cs) = run c >> run_all cs
