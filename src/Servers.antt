-- ===== src/Servers.antt =====
-- handler/server.go: the listeners of a configuration (NewServer) and their keys for TLS.
use redins.Prelude.{
  if◌then◌else◌, ℤ, pos_part, ltb_ℤ, pos, replicate, Text, codes, ℕ, Bool, true, false, ◌||◌,
  Option, none, some, List, [], ◌∷◌, ◌++◌,
}
use redins.Config.{ServerConfig, TlsConfig}

-- What tls.Config is given: certificates and roots.
pub record Tls (Cert Pool : Type 0) : Type 0 where
  pub certificates : List Cert
  pub root_cas : Option Pool

-- dns.Server, as far as it is set.
pub record Server (Cert Pool : Type 0) : Type 0 where
  pub addr : Text
  pub net : Text
  pub reuse_port : Bool
  pub tls_config : Option (Tls Cert Pool)

-- The files: ioutil.ReadFile and tls.LoadX509KeyPair, `none` for an error, the roots of a text by
-- AppendCertsFromPEM, `none` where it takes none, and strconv.Itoa.
pub record Files (Cert Pool : Type 0) : Type 0 where
  pub read_file : Text → Option Text
  pub load_key_pair : Text → Text → Option Cert
  pub certs_from_pem : Text → Option Pool
  pub itoa : ℤ → Text

module _ {Cert Pool : Type 0} (files : Files Cert Pool) where
  abbrev roots_in : Option Text → Option Pool
  roots_in none = none
  roots_in (some pem) = files.certs_from_pem pem

  unfoldable pub load_roots : Text → Option Pool
  load_roots [] = none
  load_roots (c ∷ path) = roots_in (files.read_file (c ∷ path))

  abbrev is_empty : Text → Bool
  is_empty [] = true
  is_empty (c ∷ s) = false

  abbrev with_certificate : Option Pool → Option Cert → Option (Tls Cert Pool)
  with_certificate root none = none
  with_certificate root (some cert) = some (record { certificates = cert ∷ []; root_cas = root })

  unfoldable pub load_tls_config : TlsConfig → Option (Tls Cert Pool)
  unfolding load_roots
  load_tls_config cfg =
      let root = load_roots cfg.ca_path in
      if is_empty cfg.key_path || is_empty cfg.cert_path
      then some (record { certificates = []; root_cas = root })
      else with_certificate root (files.load_key_pair cfg.cert_path cfg.key_path)

  unfoldable pub make_server : ServerConfig → Server Cert Pool
  unfolding load_tls_config
  make_server cfg = record {
    addr = cfg.ip ++ (codes ":" ++ files.itoa cfg.port);
    net = cfg.protocol;
    reuse_port = true;
    tls_config = if cfg.tls.enable then load_tls_config cfg.tls else none;
  }

  -- A count below one is taken for one.
  unfoldable pub instances : ServerConfig → ℕ
  instances cfg = if ltb_ℤ cfg.count (pos 1) then 1 else pos_part cfg.count

  unfoldable pub new_server : List ServerConfig → List (Server Cert Pool)
  unfolding instances
  new_server [] = []
  new_server (cfg ∷ config) = replicate (instances cfg) (make_server cfg) ++ new_server config
