-- ===== src/Startup/Proxy.antt =====
-- The environment that the start of a command leaves.
use nsg_parser.Dict.{lookup, put, lookup-put, Dict}
use nsg_parser.Outcome.{returned}
use nsg_parser.Startup.{System, Program, viper, root_pre_run, with_proxy}
use nsg_parser.Startup.Config.{configured, configured_proxy, proxies_set, root_pre_run-returned}
use nsg_parser.Prelude.{
  ◌≡◌, refl, ap, sym, ◌∙◌, Bool, not, ◌&&◌, ◌||◌, if◌then◌else◌, Option, some, [], ◌∷◌, Text, codes,
  text_eq, Bool-cases, inl, inr,
}

abbrev pub is_proxy_variable : Text → Bool
is_proxy_variable k = text_eq (codes "HTTPS_PROXY") k || text_eq (codes "HTTP_PROXY") k

-- What the variable is where the proxy is set.
abbrev pub proxied : Text → Dict Text → Text → Option Text
proxied proxy env k =
    if not (text_eq proxy []) && is_proxy_variable k then some proxy else lookup k env

lookup-with_proxy :
    (proxy : Text) (env : Dict Text) (k : Text)
    → lookup k (with_proxy proxy env) ≡ proxied proxy env k
lookup-with_proxy [] env k = refl
lookup-with_proxy (c ∷ proxy) env k =
    rw
      (
        lookup-put (codes "HTTPS_PROXY") k (c ∷ proxy) (put (codes "HTTP_PROXY") (c ∷ proxy) env),
        lookup-put (codes "HTTP_PROXY") k (c ∷ proxy) env,
      )
      (elim (Bool-cases (text_eq (codes "HTTPS_PROXY") k)) [
        | inl e ↦ rw e refl
        | inr e ↦ rw e refl
      ])

module _ {V Folders : Type 0} (system : System V Folders) (p q : Program V Folders) where
  -- If the start of a command returns and the configuration names a proxy, then HTTP_PROXY and
  -- HTTPS_PROXY are both that proxy, whatever they were, and every other variable is as it was; if
  -- it names none, every variable is as it was.
  pub root_pre_run-env :
      (k : Text)
      → root_pre_run system p ≡ returned q
      → lookup k q.env
        ≡ proxied
            (((viper system).settings p.env (configured system p)).get_string (codes "http_proxy"))
            p.env
            k
  root_pre_run-env k h =
      ap (λ (r : Program V Folders). lookup k r.env) (root_pre_run-returned system p q h).1
      ∙ ap (lookup k) (sym (proxies_set system p (configured_proxy system p) p.env))
      ∙ lookup-with_proxy
          (((viper system).settings p.env (configured system p)).get_string (codes "http_proxy"))
          p.env k
