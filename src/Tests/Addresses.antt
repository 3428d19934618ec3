-- ===== src/Tests/Addresses.antt =====
-- The theorems on the ARP table, at concrete entries.
use cu_ebpf.Base.{
  ℕ, Bool, true, false, ◌||◌, if◌then◌else◌, List, Option, none, ◌≡◌, refl, [], ◌∷◌, some, arith,
}
use cu_ebpf.Watcher.{du_ip, str_eq}
use cu_ebpf.Arp.{lookup_mac_by_ip}
use cu_ebpf.Arp.Octets.{MacFits}
use cu_ebpf.Arp.Probe.{
  Neighbours, IsNeighbours, du_mac_round, with_answer, fresh_answer, du_mac_round-fresh,
}
use cu_ebpf.Session.{Mac}
use cu_ebpf.Watcher.Transcript.{with_newline}
use cu_ebpf.Arp.Rows.{Row, IsRow, table_text}
use cu_ebpf.Arp.Table.{FitsLine, mac_in, lookup_mac_by_ip-mac_in}
use cu_ebpf.Tests.{mac, learner}

mac-MacFits : MacFits (mac 0xab)
mac-MacFits = omega arith

abbrev row : Row
row = record {
  ip = du_ip;
  hwtype = b'0' ∷ b'x' ∷ b'1' ∷ [];
  flags = b'0' ∷ b'x' ∷ b'2' ∷ [];
  mac = mac 0xab;
  mask = b'*' ∷ [];
  dev = b'e' ∷ b't' ∷ b'h' ∷ b'0' ∷ [];
  gap1 = 2;
  gap2 = 9;
  gap3 = 9;
  gap4 = 4;
  gap5 = 8;
}

row-IsRow : IsRow row
row-IsRow = record {
  ip = record { some_text = refl; plain = ground arith; short = omega arith };
  hwtype = record { some_text = refl; plain = ground arith; short = omega arith };
  flags = record { some_text = refl; plain = ground arith; short = omega arith };
  mac = mac-MacFits;
  mask = record { some_text = refl; plain = ground arith; short = omega arith };
  dev = record { some_text = refl; plain = ground arith; short = omega arith };
  printed = omega arith;
  fits = omega arith;
}

abbrev header : List ℕ
header = b'I' ∷ b'P' ∷ []

header-FitsLine : FitsLine header
header-FitsLine = record { printed = omega arith; fits = omega arith }

lookup_mac_by_ip-mac_in_example :
    lookup_mac_by_ip (some (with_newline header (table_text (row ∷ [])))) du_ip
    ≡ mac_in (row ∷ []) du_ip
lookup_mac_by_ip-mac_in_example =
    lookup_mac_by_ip-mac_in du_ip header (row ∷ []) header-FitsLine (row-IsRow, tt)

-- Blanks that take the line over the buffer: fgets splits it, and no piece has the six fields.
abbrev wide_row : Row
wide_row = record row { gap4 = 240 }

wide_row_missed :
    lookup_mac_by_ip (some (with_newline header (table_text (wide_row ∷ [])))) du_ip ≡ none
unfolding lookup_mac_by_ip
wide_row_missed = refl

-- Whether the table has an entry for the DU; the DU answers, and the entry of before is gone.
abbrev neighbours : Neighbours Bool
neighbours = record {
  neigh_del = λ ip_str w. false;
  socket_works = λ w. true;
  send = λ ip_str w. str_eq du_ip ip_str || w;
  arp_table = λ w. some (with_newline header (table_text (if w then row ∷ [] else [])));
}

abbrev answers : List ℕ → Bool → Option Mac
answers ip_str w = if str_eq du_ip ip_str then some (mac 0xab) else none

neighbours-IsNeighbours : IsNeighbours neighbours answers
neighbours-IsNeighbours = record {
  header = header;
  line = header-FitsLine;
  rows = λ w. if w then row ∷ [] else [];
  text = λ w. refl;
  are = λ w. ground (arith, row-IsRow);
  deleted = λ ip_str w. refl;
  asked = λ ip_str w none_there. ground (arith, none_there);
}

du_mac_round-fresh_example :
    (du_mac_round neighbours (false, learner)).1
    ≡ with_answer (fresh_answer neighbours answers neighbours-IsNeighbours du_ip false) learner
du_mac_round-fresh_example =
    du_mac_round-fresh neighbours answers neighbours-IsNeighbours false learner
