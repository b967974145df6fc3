-- ===== src/Manifest/Bounds.antt =====
-- The ports and the protocol of a PortSpec that kelso/lib/manifest.py parses.
use kelso.Common.{
  ℕ, ◌≤◌, ◌≡◌, refl, sym, ap, ◌∙◌, subst, arith, Bool, true, false, not, ◌&&◌, if◌then◌else◌,
  eq_nat, eq_list, leb, Bool-cases, inl, inr, ◌⊎◌,
}
use kelso.Common.Result.{ok, err, ◌>>=◌, ◌>>◌, require, ok_of_bind}
use kelso.Common.Text.{Text, is_empty, isdigit, int, partition, Partition}
use kelso.Manifest.Port.{
  not_a_port, no_container_port, HostPort, assign, fixed, PortSpec, port_number, parse_proto,
  parse_host_port, parse,
}

abbrev IsPort : ℕ → Type 0
IsPort n = (1 ≤ n) × (n ≤ 65535)

-- What the parts of a port's text say: the host port is there exactly if there is a colon before
-- the protocol, and then it is the number in front of it; the container port is the number behind
-- the colon, or the only one. A missing protocol is tcp.
pub record Says (value : Text) (spec : PortSpec) : Type 0 where
  pub ports : Partition
  pub ports_are : ports ≡ partition b':' (partition b'/' value).before
  pub host :
      ((ports.found ≡ false) × (spec.host_port ≡ assign))
      ⊎ ((ports.found ≡ true)
          × (spec.host_port ≡ fixed (int ports.before))
          × IsPort (int ports.before))
  pub container : spec.container_port ≡ int (if ports.found then ports.after else ports.before)
  pub container_in : IsPort spec.container_port
  pub proto_of : parse_proto (partition b'/' value).after ≡ ok spec.proto

in_range : (b : Bool) (n : ℕ) → (b && (leb 1 n && leb n 65535)) ≡ true → IsPort n
in_range b n h = ground arith

port_number_lem : (text : Text) (n : ℕ) → port_number text ≡ ok n → (n ≡ int text) × IsPort n
unfolding port_number
port_number_lem text n h =
    elim (Bool-cases (isdigit text && (leb 1 (int text) && leb (int text) 65535))) [
      | inl good ↦
          let k : ok (int text) ≡ ok n = rw good at h in
          let e : int text ≡ n = cc k in
          (sym e, subst IsPort e (in_range (isdigit text) (int text) good))
      | inr bad ↦ let k : err not_a_port ≡ ok n = rw bad at h in cc k
    ]

with_colon :
    (ports : Partition) (host : HostPort)
    → (require (not (is_empty ports.after)) no_container_port
        >> (port_number ports.before >>= λ port. ok (fixed port)))
      ≡ ok host
    → (host ≡ fixed (int ports.before)) × IsPort (int ports.before)
with_colon ports host h = elim (Bool-cases (is_empty ports.after)) [
  | inl empty ↦ let k : err no_container_port ≡ ok host = rw empty at h in cc k
  | inr given ↦
      let k : (port_number ports.before >>= λ port. ok (fixed port)) ≡ ok host = rw given at h in
      let port = ok_of_bind (port_number ports.before) _ k in
      let n = port_number_lem ports.before port.0 port.1 in
      let e : fixed port.0 ≡ host = cc port.2 in (sym e ∙ ap fixed n.0, subst IsPort n.0 n.1)
]

host_lem :
    (ports : Partition) (host : HostPort)
    → parse_host_port ports ≡ ok host
    → ((ports.found ≡ false) × (host ≡ assign))
      ⊎ ((ports.found ≡ true) × (host ≡ fixed (int ports.before)) × IsPort (int ports.before))
unfolding parse_host_port
host_lem ports host h = elim (Bool-cases ports.found) [
  | inr none_there ↦
      let k : ok assign ≡ ok host = rw none_there at h in
      let e : assign ≡ host = cc k in inl (none_there, sym e)
  | inl there ↦
      let k : (require (not (is_empty ports.after)) no_container_port
            >> (port_number ports.before >>= λ port. ok (fixed port)))
          ≡ ok host =
        rw there at h in
      let c = with_colon ports host k in inr (there, c.0, c.1)
]

-- A text of a port that parses says what the parts of the text say, with ports from 1 to 65535. A
-- host port is given exactly if there is a colon, and is to be assigned otherwise.
pub parse-Says : (value : Text) (spec : PortSpec) → parse value ≡ ok spec → Says value spec
unfolding parse
parse-Says value spec h =
    let parts : Partition = partition b'/' value in
    let ports : Partition = partition b':' parts.before in
    let host = ok_of_bind (parse_host_port ports) _ h in
    let container =
      ok_of_bind (port_number (if ports.found then ports.after else ports.before)) _ host.2 in
    let proto = ok_of_bind (parse_proto parts.after) _ container.2 in
    let e : record { host_port = host.0; container_port = container.0; proto = proto.0 } ≡ spec =
      cc proto.2 in
    let n =
      port_number_lem (if ports.found then ports.after else ports.before) container.0 container.1 in
    subst (Says value) e (record {
      ports = ports;
      ports_are = refl;
      host = host_lem ports host.0 host.1;
      container = n.0;
      container_in = n.1;
      proto_of = proto.1;
    })
