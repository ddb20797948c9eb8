-- ===== src/Stack/Locking.antt =====
-- Every public operation of the stack gives back the handler's lock on every path.
use mbed_ce_st87m.Common.{
  ℕ, zero, suc, ◌+◌, ◌≡◌, refl, Option, none, some, List, [], ◌∷◌, ℤ, Bool, true, false, below,
  ◌&&◌, ltb, ◌==ℤ◌,
}
use mbed_ce_st87m.At.{NsapiError, Action, Trace, pure, ◌>>=◌, ◌>>◌}
use mbed_ce_st87m.At.Locks.{
  depth, IsLevel, IsLevel-bind, IsLevel-if, IsLevel-pure, IsLevel-get_clock, IsLevel-call,
  locks_rules,
}
use mbed_ce_st87m.Stack.Types.{Address, IpVersion, Stack, Env, max_sockets}
use mbed_ce_st87m.Stack.Ip.{
  ipcfg_line, configure_ip, ensure_ip_configured, cgpaddr, cgcontrdp, get_ip_address, dns_query,
  gethostbyname,
}
use mbed_ce_st87m.Stack.Lifecycle.{
  start_socket, allocate, register, create_on_modem, create_typed, create_socket_impl, release_slot,
  close_on_modem, close_found, socket_close_impl, close_tracked, close_untracked, close_one,
  close_id, close_ids, close_all_sockets, orphan_line, close_live, reap_orphan_sockets,
}
use mbed_ce_st87m.Stack.Connect.{
  connecting, connected_status, closing, status_line, query_tcp_status, poll, await_connect,
  issue_connect, attempts, connect_tcp, ensure_created, socket_connect,
}
use mbed_ce_st87m.Stack.Session.{close_session, close_tcp_session}

module _ {P : Type 0} (env : Env P) where
  get_ip_address-IsLevel : (b : Bool) → IsLevel (get_ip_address env b)
  unfolding get_ip_address cgpaddr cgcontrdp
  get_ip_address-IsLevel b = search locks_rules depth 40

  gethostbyname-IsLevel :
      (host : Option (List ℕ)) (b : Bool) (v : IpVersion) → IsLevel (gethostbyname env host b v)
  unfolding gethostbyname dns_query
  gethostbyname-IsLevel none b v = search locks_rules depth 40
  gethostbyname-IsLevel (some host) b v = search locks_rules depth 40

  close_one-IsLevel : (k : ℤ) (e : NsapiError) (h : Option ℕ) → IsLevel (close_one env k e h)
  unfolding close_one close_tracked close_untracked
  close_one-IsLevel k e none = search locks_rules depth 30
  close_one-IsLevel k e (some h) = search locks_rules depth 30

  close_ids-IsLevel : (n i : ℕ) (e : NsapiError) → IsLevel (close_ids env n i e)
  unfolding close_ids close_id
  close_ids-IsLevel zero i e = search locks_rules
  close_ids-IsLevel (suc n) i e =
      IsLevel-bind _ _ (search (locks_rules, close_one-IsLevel) depth 10)
        (λ e'. close_ids-IsLevel n (i + 1) e')

  close_all_sockets-IsLevel : IsLevel (close_all_sockets env)
  unfolding close_all_sockets
  close_all_sockets-IsLevel = search (locks_rules, close_ids-IsLevel) depth 20

  close_live-IsLevel : (n i : ℕ) (live : ℤ → Bool) → IsLevel (close_live env n i live)
  unfolding close_live
  close_live-IsLevel zero i live = search locks_rules
  close_live-IsLevel (suc n) i live = search (locks_rules, close_live-IsLevel n) depth 20

  pub reap_orphan_sockets-IsLevel : IsLevel (reap_orphan_sockets env)
  unfolding reap_orphan_sockets orphan_line
  reap_orphan_sockets-IsLevel = search (locks_rules, close_live-IsLevel) depth 30

  release_slot-IsLevel : (k : ℤ) → IsLevel (release_slot env k)
  unfolding release_slot
  release_slot-IsLevel k =
      IsLevel-if (below k max_sockets) _ _ (search locks_rules) (search locks_rules)

  close_found-IsLevel : (k : ℤ) (h : Option ℕ) → IsLevel (close_found env k h)
  unfolding close_found close_on_modem
  close_found-IsLevel k none = search (locks_rules, release_slot-IsLevel) depth 20
  close_found-IsLevel k (some h) = search (locks_rules, release_slot-IsLevel) depth 20

  socket_close_impl-IsLevel : (k : ℤ) → IsLevel (socket_close_impl env k)
  unfolding socket_close_impl
  socket_close_impl-IsLevel k = search (locks_rules, close_found-IsLevel) depth 20

  close_session-IsLevel : (k : ℤ) (h : Option ℕ) → IsLevel (close_session env k h)
  unfolding close_session
  close_session-IsLevel k none = search locks_rules depth 20
  close_session-IsLevel k (some h) = search (locks_rules, socket_close_impl-IsLevel) depth 20

  close_tcp_session-IsLevel : (k : ℤ) → IsLevel (close_tcp_session env k)
  unfolding close_tcp_session
  close_tcp_session-IsLevel k = search (locks_rules, close_session-IsLevel) depth 20

  allocate-IsLevel : (k : ℤ) → IsLevel (allocate env k)
  unfolding allocate
  allocate-IsLevel k = record { at = λ s t. refl }

  register-IsLevel : (h : ℕ) (ctx k : ℤ) → IsLevel (register env h ctx k)
  unfolding register start_socket
  register-IsLevel h ctx k =
      IsLevel-if (below k max_sockets) _ _ (search (locks_rules, allocate-IsLevel) depth 20)
        (search locks_rules depth 20)

  create_typed-IsLevel :
      (h : ℕ) (ctx : ℤ) (name : Option (List ℕ)) → IsLevel (create_typed env h ctx name)
  unfolding create_typed create_on_modem
  create_typed-IsLevel h ctx none = search locks_rules
  create_typed-IsLevel h ctx (some name) = search (locks_rules, register-IsLevel) depth 40

  ensure_ip_configured-IsLevel : IsLevel (ensure_ip_configured env)
  unfolding ensure_ip_configured configure_ip cgpaddr ipcfg_line
  ensure_ip_configured-IsLevel = search locks_rules depth 40

  create_socket_impl-IsLevel : (h : Option ℕ) (ctx : ℤ) → IsLevel (create_socket_impl env h ctx)
  unfolding create_socket_impl
  create_socket_impl-IsLevel none ctx = search locks_rules
  create_socket_impl-IsLevel (some h) ctx =
      search (locks_rules, create_typed-IsLevel, ensure_ip_configured-IsLevel) depth 20

  query_tcp_status-IsLevel : (k : ℤ) → IsLevel (query_tcp_status env k)
  unfolding query_tcp_status status_line
  query_tcp_status-IsLevel k = search locks_rules depth 20

  IsLevel-while :
      {A : Type 0} (b : Bool) (x y : Action (Stack P) A)
      → IsLevel x
      → IsLevel y
      → IsLevel (elim b [ true ↦ x | false ↦ y ])
  IsLevel-while true x y lx ly = lx
  IsLevel-while false x y lx ly = ly

  poll-IsLevel :
      (n : ℕ) (k : ℤ) (deadline : ℕ) (status : ℤ) → IsLevel (poll env n k deadline status)
  unfolding poll
  poll-IsLevel zero k deadline status = search locks_rules
  poll-IsLevel (suc n) k deadline status = IsLevel-bind _ _ (IsLevel-get_clock env.modem) λ now.
      IsLevel-while ((status ==ℤ connecting) && ltb now deadline) _ _
        (IsLevel-bind _ _ (IsLevel-call _ (λ n'. refl)) (λ _.
          IsLevel-bind _ _ (query_tcp_status-IsLevel k)
            (λ status'. poll-IsLevel n k deadline status')))
        (IsLevel-pure _)

  attempts-IsLevel :
      (n a timeout_ms : ℕ) (k : ℤ) (address : Address) (status : ℤ)
      → IsLevel (attempts env n a timeout_ms k address status)
  unfolding attempts await_connect issue_connect
  attempts-IsLevel zero a timeout_ms k address status = search locks_rules
  attempts-IsLevel (suc n) a timeout_ms k address status =
      let next = attempts-IsLevel n (a + 1) timeout_ms k address in
      IsLevel-if (status ==ℤ connected_status) _ _ (IsLevel-pure _) (
        IsLevel-if (status ==ℤ closing) _ _ (IsLevel-pure _) (
          IsLevel-if (status ==ℤ connecting) _ _
            (IsLevel-bind _ _ (search (locks_rules, poll-IsLevel) depth 10) next)
            (IsLevel-bind _ _ (search (locks_rules, query_tcp_status-IsLevel) depth 20)
              (λ status'. IsLevel-bind _ _ (search locks_rules depth 10) (λ _. next status')))))

  connect_tcp-IsLevel : (h : ℕ) (address : Address) → IsLevel (connect_tcp env h address)
  unfolding connect_tcp
  connect_tcp-IsLevel h address =
      search (locks_rules, query_tcp_status-IsLevel, attempts-IsLevel) depth 20

  ensure_created-IsLevel : (h : ℕ) → IsLevel (ensure_created env h)
  unfolding ensure_created
  ensure_created-IsLevel h = search (locks_rules, create_socket_impl-IsLevel) depth 20

  socket_connect-IsLevel :
      (h : Option ℕ) (address : Address) → IsLevel (socket_connect env h address)
  unfolding socket_connect
  socket_connect-IsLevel none address = search locks_rules
  socket_connect-IsLevel (some h) address =
      search (locks_rules, ensure_created-IsLevel, connect_tcp-IsLevel) depth 30

  -- The public operations that take the lock themselves.
  pub data PublicCall : Type 0 where
    get_address : Bool → PublicCall
    resolve_name : Option (List ℕ) → Bool → IpVersion → PublicCall
    connect_socket : Option ℕ → Address → PublicCall
    close_every reap : PublicCall
    close_tcp : ℤ → PublicCall

  unfoldable pub issue : PublicCall → Action (Stack P) (Unit {0})
  issue (get_address b) = do _ ← get_ip_address env b; pure tt
  issue (resolve_name host b v) = do _ ← gethostbyname env host b v; pure tt
  issue (connect_socket h address) = do _ ← socket_connect env h address; pure tt
  issue close_every = do _ ← close_all_sockets env; pure tt
  issue reap = reap_orphan_sockets env
  issue (close_tcp k) = do _ ← close_tcp_session env k; pure tt

  unfoldable pub issue_all : List PublicCall → Action (Stack P) (Unit {0})
  issue_all [] = pure tt
  issue_all (c ∷ cs) = issue c >> issue_all cs

  issue-IsLevel : (c : PublicCall) → IsLevel (issue c)
  unfolding issue
  issue-IsLevel (get_address b) = search (locks_rules, get_ip_address-IsLevel) depth 10
  issue-IsLevel (resolve_name host b v) = search (locks_rules, gethostbyname-IsLevel) depth 10
  issue-IsLevel (connect_socket h address) = search (locks_rules, socket_connect-IsLevel) depth 10
  issue-IsLevel close_every = search (locks_rules, close_all_sockets-IsLevel) depth 10
  issue-IsLevel reap = reap_orphan_sockets-IsLevel
  issue-IsLevel (close_tcp k) = search (locks_rules, close_tcp_session-IsLevel) depth 10

  -- After any sequence of address queries, name lookups, connects, sweeps of all sockets, sweeps of
  -- orphans and session closings, whatever the modem answers and whichever of them fail, the
  -- handler's lock is held exactly as deep as before.
  pub issue_all-depth :
      (cs : List PublicCall) (s : Stack P) (t : Trace) → depth (issue_all cs s t).2 ≡ depth t
  unfolding issue_all
  issue_all-depth [] s t = (IsLevel-pure {S = Stack P} tt).at s t
  issue_all-depth (c ∷ cs) s t =
      (IsLevel-bind _ _ (issue-IsLevel c) (λ _. record { at = issue_all-depth cs })).at s t
