-- ===== src/Server/ReadOnly/Targets.antt =====
-- What the read-only tools do for one target.
use capo_shell_mcp.Prelude.{
  ◌≡◌, ◌≢◌, refl, ◌⊎◌, inl, inr, String, true, none, List, [], lookup, Option-cases, Result, ok,
  err, Result-cases,
}
use capo_shell_mcp.Capi.Target.{parse_target}
use capo_shell_mcp.Config.Load.{AppConfig, KubeconfigSource}
use capo_shell_mcp.Exec.{with_kubeconfig}
use capo_shell_mcp.Exec.Keeps.{with_kubeconfig-keeps}
use capo_shell_mcp.Server.Outside.{Outside, State, outer}
use capo_shell_mcp.Server.Kubeconfig.{cached_kubeconfig, read_only_kubeconfig, resolve_target}
use capo_shell_mcp.Server.Tools.{
  KubeconfigResult, ClusterId, given, exec_in, exec_one_target, kubeconfig_of_target,
  get_one_target,
}
use capo_shell_mcp.Server.ReadOnly.{Keeps, Gives, bind-Gives, then-Keeps, outer-Keeps}
use capo_shell_mcp.Server.ReadOnly.Calls.{Issued, ReadOnlyCalls}
use capo_shell_mcp.Server.ReadOnly.Kubeconfig.{
  cached_kubeconfig-Keeps, read_only_kubeconfig-Gives, resolve_target-Keeps,
}

module _ {X C : Type 0} (out : Outside X C) where
  -- A result with an error, or with a kubeconfig that CreateReadOnlyKubeconfig has given.
  abbrev pub IsReadOnly : KubeconfigResult → Type 0
  IsReadOnly r =
      ((r.error ≢ none) × (r.kubeconfig ≡ "")) ⊎ ((r.error ≡ none) × Issued out r.kubeconfig)

module _ {X C : Type 0} (out : Outside X C) (cfg : AppConfig) (P : X → Type 0)
    (calls : ReadOnlyCalls out P) where
  with_kubeconfig-Keeps :
      (kc : String) (command : List String) (stdin : String)
      → Issued out kc
      → Keeps P (outer (with_kubeconfig out.system out.execer kc [] command stdin))
  with_kubeconfig-Keeps kc command stdin issued =
      outer-Keeps P (with_kubeconfig out.system out.execer kc [] command stdin) (
        with_kubeconfig-keeps out.system out.execer P kc
          (record {
            random = calls.random;
            write = λ path x. calls.write path kc x issued;
            remove = calls.remove;
            execute = calls.execute;
          })
          command stdin)

  exec_in-Keeps :
      (src : KubeconfigSource) (id : ClusterId) (command : List String) (stdin : String)
      → Keeps P (exec_in out cfg src id command stdin true)
  unfolding exec_in
  exec_in-Keeps src id command stdin =
      then-Keeps P (cached_kubeconfig out cfg src id.context id.namespace id.name) _
        (cached_kubeconfig-Keeps out cfg P calls src id.context id.namespace id.name)
        (λ kc.
          bind-Gives P (λ _. Unit) (read_only_kubeconfig out cfg kc)
            (λ ro_kc. outer (with_kubeconfig out.system out.execer ro_kc [] command stdin))
            (read_only_kubeconfig-Gives out cfg P calls kc)
            (λ ro_kc issued. with_kubeconfig-Keeps ro_kc command stdin issued))

  pub exec_one_target-keeps :
      (command : List String) (stdin target : String) (s : State X)
      → P s.outside
      → P (exec_one_target out cfg command stdin true target s).1.outside
  unfolding exec_one_target
  exec_one_target-keeps command stdin target s p = elim (Result-cases (parse_target target)) [
    | inr (e, i) ↦ rw (i, exec_one_target) p
    | inl ((k, c, ns, n), i) ↦ elim (Option-cases (lookup k cfg.kubeconfigs)) [
      | inl none_there ↦ rw (i, exec_one_target, none_there) p
      | inr (src, there) ↦
          rw (i, exec_one_target, there)
            (let id : ClusterId = record {
              kubeconfig = k;
              context = c;
              namespace = ns;
              name = n;
            } in
              (exec_in-Keeps src id command stdin s p).0)
    ]
  ]

  kubeconfig_of_target-Gives :
      (target : String) → Gives P (Issued out) (kubeconfig_of_target out cfg true target)
  unfolding kubeconfig_of_target
  kubeconfig_of_target-Gives target =
      bind-Gives P (Issued out) (resolve_target out cfg target) _
        (resolve_target-Keeps out cfg P calls target)
        (λ admin_kc u. read_only_kubeconfig-Gives out cfg P calls admin_kc)

  given-IsReadOnly :
      (target : String) (r : Result String)
      → ((kc : String) → r ≡ ok kc → Issued out kc)
      → IsReadOnly out (given target r)
  given-IsReadOnly target (ok kc) h = inr (refl, h kc refl)
  given-IsReadOnly target (err e) h = inl (λ i. cc, refl)

  pub get_one_target-keeps :
      (target : String) (s : State X)
      → P s.outside
      → IsReadOnly out (get_one_target out cfg true target s).0
        × P (get_one_target out cfg true target s).1.outside
  unfolding get_one_target
  get_one_target-keeps target s p =
      let (kept, gives) = kubeconfig_of_target-Gives target s p in
      (given-IsReadOnly target (kubeconfig_of_target out cfg true target s).0 gives, kept)
