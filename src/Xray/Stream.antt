-- ===== src/Xray/Stream.antt =====
-- The stream settings of a server (internal/xray/config.go, buildStream; capabilities.go,
-- Capabilities and AllFeatures).
pub mod Supported
use x_divine_ray.Prelude.{
  Bool, List, Option, Text, [], any_of, codes, false, if◌then◌else◌, none, not, some, text_eq, true,
  ℕ, ◌&&◌, ◌||◌, ◌∷◌,
}
use x_divine_ray.Model.Int.{pos}
use x_divine_ray.Model.Profile.{Profile, is_empty}
use x_divine_ray.Model.Rule.Validate.{split}
use x_divine_ray.Xray.Config.{
  Json, text, array, object, nil, item, end, field, Header, StreamSettings, no_stream, no_sockopt,
  Items,
}
use x_divine_ray.Xray.Words.{
  folds_to, or_else_text, has_header, core_fingerprint, pinned_cert_hex, pinned_cert_valid,
  alpn_list,
}
use x_divine_ray.Xray.Result.{
  Result, ok, err, ◌>>=◌, pin_not_digest, pin_unsupported, insecure_removed, h2_removed,
  kcp_options_removed, quic_removed,
}

pub record Capabilities : Type 0 where
  pub kcp_header_seed : Bool
  pub h2_transport : Bool
  pub quic_transport : Bool
  pub allow_insecure : Bool
  pub pinned_cert : Bool
  pub probed : Bool

unfoldable pub all_features : Capabilities
all_features = record {
  kcp_header_seed = true;
  h2_transport = true;
  quic_transport = true;
  allow_insecure = true;
  pinned_cert = true;
  probed = false;
}

-- The names of the transports, with the empty one read as tcp.
abbrev pub network_of : Profile → Text
network_of p = or_else_text p.network (codes "tcp")

-- What TLS makes of the pin and of the leave to skip verification.
abbrev pub tls_trust : Profile → Capabilities → Result (Bool × Text)
tls_trust p caps =
    if not (pinned_cert_valid p)
    then err pin_not_digest
    else if not (is_empty (pinned_cert_hex p))
    then if not caps.pinned_cert then err pin_unsupported else ok (false, pinned_cert_hex p)
    else if p.allow_insecure
    then if not caps.allow_insecure then err insecure_removed else ok (true, [])
    else ok (false, [])

-- The `switch p.Security`.
unfoldable pub secure : Profile → Capabilities → StreamSettings → Result StreamSettings
secure p caps ss =
    if text_eq p.security (codes "tls")
    then (do
      trust ← tls_trust p caps
      ok (record ss {
        security = codes "tls";
        tls = some (record {
          server_name = or_else_text p.sni (or_else_text p.host p.address);
          allow_insecure = trust.0;
          fingerprint = core_fingerprint p.fingerprint;
          alpn = alpn_list p;
          pinned_peer_cert_sha256 = trust.1;
        });
      }))
    else if text_eq p.security (codes "reality")
    then ok (record ss {
      security = codes "reality";
      reality = some (record {
        server_name = or_else_text p.sni p.host;
        fingerprint = core_fingerprint (or_else_text p.fingerprint (codes "chrome"));
        public_key = p.public_key;
        short_id = p.short_id;
        spider_x = p.spider_x;
      });
    })
    else ok (record ss { security = codes "none" })

abbrev path_of : Profile → Text
path_of p = or_else_text p.path (codes "/")

abbrev header_of : Profile → Option Header
header_of p =
    if has_header p.header_type
    then some (record { kind = p.header_type; request = none })
    else none

-- The request that disguises TCP as HTTP/1.1.
abbrev texts : List Text → Json
texts xs = array (items xs)
  where
    items : List Text → Items
    items [] = nil
    items (x ∷ xs) = item (text x) (items xs)

abbrev http_request : Profile → Json
http_request p = object (
    field (codes "version") (text (codes "1.1")) (
      field (codes "method") (text (codes "GET")) (
        field (codes "path") (texts (path_of p ∷ [])) (
          if is_empty p.host
          then end
          else field (codes "headers") (object (field (codes "Host") (texts (split 44 p.host)) end))
              end))))

abbrev pub uses_kcp_options : Profile → Bool
uses_kcp_options p = has_header p.header_type || not (is_empty p.seed)

abbrev pub one_of : Text → List Text → Bool
one_of n ns = any_of (text_eq n) ns

-- The `switch network`, on the settings whose network is filled in already.
unfoldable pub transport : Profile → Capabilities → Text → StreamSettings → Result StreamSettings
transport p caps network ss =
    if text_eq network (codes "ws")
    then ok (record ss {
      ws = some (record {
        path = path_of p;
        host = p.host;
        headers = if is_empty p.host then none else some p.host;
        heartbeat_period = pos 0;
      });
    })
    else if text_eq network (codes "grpc")
    then ok (record ss {
      grpc = some (record {
        service_name = p.service_name;
        multi_mode = folds_to p.header_type (codes "multi");
      });
    })
    else if one_of network (codes "h2" ∷ codes "http" ∷ [])
    then if not caps.h2_transport
      then err h2_removed
      else ok (record ss {
        network = codes "h2";
        http =
            some
              (record { path = path_of p; host = if is_empty p.host then [] else split 44 p.host });
      })
    else if one_of network (codes "kcp" ∷ codes "mkcp" ∷ [])
    then if uses_kcp_options p && not caps.kcp_header_seed
      then err kcp_options_removed
      else ok (record ss {
        network = codes "kcp";
        kcp = some (record {
          mtu = 1350;
          tti = 50;
          uplink_capacity = 12;
          downlink_capacity = 100;
          congestion = false;
          read_buffer_size = 2;
          write_buffer_size = 2;
          header = header_of p;
          seed = p.seed;
        });
      })
    else if text_eq network (codes "quic")
    then if not caps.quic_transport
      then err quic_removed
      else ok (record ss {
        quic = some (record {
          security = or_else_text p.quic_sec (codes "none");
          key = p.quic_key;
          header = header_of p;
        });
      })
    else if one_of network (codes "xhttp" ∷ codes "splithttp" ∷ [])
    then ok (record ss {
      network = codes "xhttp";
      xhttp = some (record { path = path_of p; host = p.host; mode = codes "auto" });
    })
    else if text_eq network (codes "httpupgrade")
    then ok (record ss { http_upgrade = some (record { path = path_of p; host = p.host }) })
    else ok (record ss {
      network = codes "tcp";
      tcp =
          if folds_to p.header_type (codes "http")
          then some (record { kind = codes "http"; request = some (http_request p) })
          else none;
    })

unfoldable pub build_stream : Profile → ℕ → Capabilities → Result StreamSettings
build_stream p mark caps = do
  ss ← secure p caps (record no_stream {
    network = network_of p;
    sockopt = some (record no_sockopt { mark = mark });
  })
  transport p caps (network_of p) ss
