-- ===== src/Manifest/Port.antt =====
-- PortSpec of kelso/lib/manifest.py.
use kelso.Common.{ℕ, not, ◌&&◌, ◌||◌, if◌then◌else◌, ◌==◌, eq_nat, eq_list, leb}
use kelso.Common.Result.{Result, ok, err, ◌>>=◌, ◌>>◌, require}
use kelso.Common.Text.{Text, codes, is_empty, isdigit, int, partition, Partition}

pub data Error : Type 0 where
  no_container_port unknown_proto not_a_port : Error

-- A host port, or -1, which means that one is to be assigned.
pub data HostPort : Type 0 where
  assign : HostPort
  fixed : ℕ → HostPort

pub data Proto : Type 0 where
  tcp udp : Proto

pub record PortSpec : Type 0 where
  pub host_port : HostPort
  pub container_port : ℕ
  pub proto : Proto

-- _port_number
unfoldable pub port_number : Text → Result Error ℕ
port_number text =
    require (isdigit text && (leb 1 (int text) && leb (int text) 65535)) not_a_port >> ok (int text)

-- proto or "tcp", if it is a known one
unfoldable pub parse_proto : Text → Result Error Proto
parse_proto proto =
    if is_empty proto || (proto == codes "tcp")
    then ok tcp
    else if proto == codes "udp"
    then ok udp
    else err unknown_proto

-- the host port, where there is a `:`
unfoldable pub parse_host_port : Partition → Result Error HostPort
unfolding port_number
parse_host_port ports =
    if ports.found
    then (require (not (is_empty ports.after)) no_container_port
        >> (port_number ports.before >>= λ port. ok (fixed port)))
    else ok assign

-- PortSpec.parse
unfoldable pub parse : Text → Result Error PortSpec
unfolding partition parse_host_port port_number parse_proto
parse value = do
  let parts : Partition = partition b'/' value
  let ports : Partition = partition b':' parts.before
  host_port ← parse_host_port ports
  container_port ← port_number (if ports.found then ports.after else ports.before)
  proto ← parse_proto parts.after
  ok (record { host_port = host_port; container_port = container_port; proto = proto })
