-- ===== src/Device/Talk/Start.antt =====
-- The conversations of init with its TLS setup, and of the device's interface.
use mbed_ce_st87m.Common.{ℕ, ◌≡◌, Bool, true, false, Option, none, some, List, [], ◌∷◌}
use mbed_ce_st87m.At.{NsapiError, Action, Trace}
use mbed_ce_st87m.At.Talk.{talk, quiet, Stays, Moves-if, Moves-pure, Moves-back_then, talk_rules}
use mbed_ce_st87m.Tls.Talk.{
  generate_key-Stays, add_certificate_impl-Stays, check_profile-Stays, save_to_nvm-Stays,
}
use mbed_ce_st87m.Tls.{cert_device, cert_ca_root}
use mbed_ce_st87m.Tls.Certificates.{add_ca_certificate, add_device_certificate}
use mbed_ce_st87m.Device.{Device, Board, get_sim_state, dump_network_status, get_tls_provisioning}
use mbed_ce_st87m.Device.Init.{
  provision_key, provision_cert, provision_ca, provision_device, save_if_needed, init_tls, init,
}
use mbed_ce_st87m.Device.Calls.{
  DeviceCall, call_init, call_configure, call_ensure_cfun1, call_get_sim_state, call_reset,
  call_dump, call_init_tls, call_drain_rx, call_set_baud_rate, called_at, issue,
}
use mbed_ce_st87m.Device.Talk.{
  drain_rx-Stays, ensure_cfun1-Stays, sim_attempts-Stays, reset-Stays, set_baud_rate-Stays,
  dump_contexts-Stays, init_locked-Stays, configure-Stays,
}

module _ (board : Board) {n : ℕ} where
  get_sim_state-Stays : Stays (quiet n) (get_sim_state board)
  unfolding get_sim_state
  get_sim_state-Stays = search (talk_rules, sim_attempts-Stays) depth 20

  dump_network_status-Stays : Stays (quiet n) (dump_network_status board)
  unfolding dump_network_status
  dump_network_status-Stays = search (talk_rules, dump_contexts-Stays) depth 10

  provision_key-Stays : (b : Bool) → Stays (quiet n) (provision_key board b)
  unfolding provision_key
  provision_key-Stays b = search (talk_rules, generate_key-Stays) depth 20

  provision_cert-Stays :
      (add : Option (List ℕ) → Action Device NsapiError) (cert : Option (List ℕ))
      → ((c : Option (List ℕ)) → Stays (quiet n) (add c))
      → Stays (quiet n) (provision_cert board add cert)
  unfolding provision_cert
  provision_cert-Stays add none h = Moves-pure _
  provision_cert-Stays add (some []) h = Moves-pure _
  provision_cert-Stays add (some (c ∷ cs)) h =
      Moves-if _ _ _ (Moves-pure _) (Moves-back_then _ _ (h _) (λ err. Moves-pure (err, true)))

  provision_ca-Stays : (b : Bool) → Stays (quiet n) (provision_ca board b)
  unfolding provision_ca add_ca_certificate
  provision_ca-Stays b = Moves-if b _ _ (Moves-pure _) (
      provision_cert-Stays _ _ (λ c.
        add_certificate_impl-Stays board.lib board.options.tls_default_sslctxid cert_ca_root c
          false))

  provision_device-Stays : Stays (quiet n) (provision_device board)
  unfolding provision_device add_device_certificate
  provision_device-Stays = provision_cert-Stays _ _ (λ c.
      add_certificate_impl-Stays board.lib board.options.tls_default_sslctxid cert_device c false)

  save_if_needed-Stays : (b : Bool) → Stays (quiet n) (save_if_needed board b)
  unfolding save_if_needed
  save_if_needed-Stays b = search (talk_rules, save_to_nvm-Stays, drain_rx-Stays) depth 30

  init_tls-Stays : Stays (quiet n) (init_tls board)
  unfolding init_tls get_tls_provisioning
  init_tls-Stays =
      search
        (
          talk_rules, check_profile-Stays, provision_key-Stays, provision_ca-Stays,
          provision_device-Stays, save_if_needed-Stays,
        )
        depth 40

  init-Stays : Stays (quiet n) board.setup_at_handler → Stays (quiet n) (init board)
  unfolding init
  init-Stays setup =
      Moves-back_then _ _ setup
        λ _. search (talk_rules, init_locked-Stays, ensure_cfun1-Stays, init_tls-Stays) depth 20

  issue-Stays :
      (c : DeviceCall)
      → Stays (quiet n) board.setup_at_handler
      → Stays (called_at c n) (issue board c)
  unfolding issue
  issue-Stays call_init setup = Moves-back_then _ _ (init-Stays setup) (λ _. Moves-pure tt)
  issue-Stays call_configure setup = search (talk_rules, configure-Stays) depth 10
  issue-Stays call_ensure_cfun1 setup = search (talk_rules, ensure_cfun1-Stays) depth 10
  issue-Stays call_get_sim_state setup = search (talk_rules, get_sim_state-Stays) depth 10
  issue-Stays call_reset setup = search (talk_rules, reset-Stays) depth 10
  issue-Stays call_dump setup = dump_network_status-Stays
  issue-Stays call_init_tls setup = search (talk_rules, init_tls-Stays) depth 10
  issue-Stays (call_drain_rx dwell) setup = drain_rx-Stays dwell
  issue-Stays (call_set_baud_rate rate) setup = search (talk_rules, set_baud_rate-Stays) depth 10

  -- Every public operation of the device that talks to the modem, init with its TLS setup among
  -- them, keeps the grammar of the handler's calls. Started with no command under way, and
  -- configure by a caller that holds the handler's lock, it ends so with the lock held as deep,
  -- whatever the modem answers and whichever command fails: no command is begun without the lock,
  -- while another is being written or before its answer is read to the end. It is for a base class
  -- whose setup_at_handler does the same.
  pub issue-talk :
      (c : DeviceCall) (d : Device) (t : Trace)
      → Stays (quiet n) board.setup_at_handler
      → talk t ≡ called_at c n
      → talk (issue board c d t).2 ≡ called_at c n
  issue-talk c d t setup h = (issue-Stays c setup).at d t h
