-- ===== src/Manifest/Tests.antt =====
-- Manifests as kelso/lib/manifest.py reads them.
use kelso.Common.{eq_nat, eq_list, ◌≡◌, refl}
use kelso.Common.Result.{ok, err}
use kelso.Common.Text.{codes, partition}
use kelso.Manifest.Port.{
  no_container_port, unknown_proto, not_a_port, assign, fixed, tcp, udp, PortSpec, port_number,
  parse_proto, parse_host_port, parse,
}

abbrev dns : PortSpec
dns = record { host_port = fixed 5353; container_port = 53; proto = udp }

parses_dns : parse (codes "5353:53/udp") ≡ ok dns
unfolding parse partition parse_host_port port_number parse_proto
parses_dns = refl

assigns : parse (codes "80") ≡ ok (record { host_port = assign; container_port = 80; proto = tcp })
unfolding parse partition parse_host_port port_number parse_proto
assigns = refl

refuses_open : parse (codes "80:") ≡ err no_container_port
unfolding parse partition parse_host_port port_number parse_proto
refuses_open = refl

refuses_zero : parse (codes "0") ≡ err not_a_port
unfolding parse partition parse_host_port port_number parse_proto
refuses_zero = refl

refuses_sctp : parse (codes "80/sctp") ≡ err unknown_proto
unfolding parse partition parse_host_port port_number parse_proto
refuses_sctp = refl
