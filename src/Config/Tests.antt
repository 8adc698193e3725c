-- ===== src/Config/Tests.antt =====
-- Tests of the configuration on concrete texts and values.
use Prim.Native.Char.{Char, code}
use capo_shell_mcp.Prelude.{
  ℕ, ◌<◌, eqb, pos, String, ◌⊕◌, ◌≡◌, inl, inr, refl, ◌↔◌, [], lookup, insert, Result, ok, err,
  external, arith, ◌==◌, if◌then◌else◌, eq_iff,
}
use capo_shell_mcp.Config.Value.{Value, text, int, object, Fields, end, field, get, as_object}
use capo_shell_mcp.Config.Env.Laws.{after_dollar, expand_env_enough}
use capo_shell_mcp.Config.Env.{size, expand_env, expand, variable, to_brace, name_run}
use capo_shell_mcp.Config.Env.Expansion.{
  Expands, at_end, plain, in_braces, by_name, lone, expand_env-Expands,
}
use capo_shell_mcp.Config.Env.Expansion.Total.{expand_env_iff}
use capo_shell_mcp.Config.Env.Forms.{expand_env-plain, expand_env-braced, expand_env-named}
use capo_shell_mcp.Config.Load.{
  AppConfig, KubeconfigSource, config_of, load, parse_kubeconfigs, parse_sources, parse_source,
  parse_contexts, read_sshuttle_host,
}
use capo_shell_mcp.Config.Load.Laws.{
  IsSources, IsLoadable, load-ok_iff, config_of-ok_iff, config_of-named,
}

abbrev getenv : String → String
getenv name = if name == "HOME" then "/home/me" else ""

expanded_test : expand_env getenv "${HOME}/.kube/$USER.$" ≡ "/home/me/.kube/.$"
unfolding expand_env expand variable to_brace name_run
expanded_test = refl

plain_test : expand_env getenv "/etc/kube" ≡ "/etc/kube"
plain_test =
    expand_env-plain getenv "/etc/kube"
      (refl, (refl, (refl, (refl, (refl, (refl, (refl, (refl, (refl, tt)))))))))

expand_env-braced_test :
    expand_env getenv "~${HOME}/x" ≡ "~" ⊕ (getenv "HOME" ⊕ expand_env getenv "/x")
expand_env-braced_test =
    expand_env-braced getenv "~" "HOME" "/x" (refl, tt) (refl, (refl, (refl, (refl, tt))))
      (ground (arith, eq_iff "HOME" ""))

expand_env-named_test :
    expand_env getenv "~$HOME/x" ≡ "~" ⊕ (getenv "HOME" ⊕ expand_env getenv "/x")
expand_env-named_test =
    expand_env-named getenv "~" "H" "OME" "/x" (refl, tt) refl (refl, (refl, (refl, tt))) refl

abbrev entry : Value
entry = object (field "path" (text "$HOME/.kube/prod") end)

abbrev raw : Fields
raw =
    field "kubeconfigs" (object (field "prod" entry end))
      (field "cache" (object (field "kubeconfig_ttl" (int (pos 60)) end)) end)

config_of-ok_iff_test :
    ((cfg : AppConfig) × (config_of getenv raw ≡ ok cfg))
    ↔ IsSources (as_object (get raw "kubeconfigs"))
config_of-ok_iff_test = config_of-ok_iff getenv raw

abbrev content_of : String → Result String
content_of path =
    if path == "/home/me/.config/capi-shell/config.yaml"
    then ok "content"
    else err (external "not found")

abbrev decode : String → Result Fields
decode content = ok raw

load-ok_iff_example :
    ((cfg : AppConfig) × (load getenv content_of decode (ok "/home/me") ≡ ok cfg))
    ↔ IsLoadable getenv content_of decode (ok "/home/me")
load-ok_iff_example = load-ok_iff getenv content_of decode (ok "/home/me")

abbrev prod : KubeconfigSource
prod = record { name = "prod"; path = "/home/me/.kube/prod"; contexts = []; sshuttle_host = "" }

config_of-named_test : prod.name ≡ "prod"
unfolding config_of parse_kubeconfigs parse_sources parse_source get expand_env expand variable
    name_run insert lookup parse_contexts read_sshuttle_host
config_of-named_test = config_of-named getenv raw "prod" {src = prod} refl refl

expand_env_enough_test :
    ((f : ℕ) → size "HOME}" < f → expand getenv f "HOME}" ≡ expand_env getenv "HOME}")
    × ((c : Char)
        → expand_env getenv (String.◌∷◌ c "HOME}") ≡ (
            if eqb (code c) b'$'
            then after_dollar getenv c "HOME}" (variable "HOME}")
            else String.◌∷◌ c (expand_env getenv "HOME}")))
expand_env_enough_test = expand_env_enough getenv "HOME}"

-- "$X9-${HOME}$": a name with a digit, which ends at the dash, one in braces, and a lone dollar sign.
abbrev parts : Expands getenv "$X9-${HOME}$" "-/home/me$"
parts =
    by_name "X" "9" (inl (ground arith)) (inr (ground arith), tt) (λ h. ground arith)
      (plain "-" (λ h. ground arith)
        (in_braces "HOME" (refl, (refl, (refl, (refl, tt)))) (ground (arith, eq_iff "HOME" ""))
          (lone tt at_end)))

expand_env_iff_example :
    Expands getenv "$X9-${HOME}$" "-/home/me$" ↔ (expand_env getenv "$X9-${HOME}$" ≡ "-/home/me$")
expand_env_iff_example = expand_env_iff getenv "$X9-${HOME}$" "-/home/me$"

expand_env-Expands_test : expand_env getenv "$X9-${HOME}$" ≡ "-/home/me$"
expand_env-Expands_test = expand_env-Expands getenv parts
