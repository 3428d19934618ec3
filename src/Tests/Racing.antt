-- ===== src/Tests/Racing.antt =====
-- The theorems on calls that run at the same time, at concrete threads.
use cu_ebpf.Base.{ℕ, ◌≡◌, refl, true, inl, inr, ◌⊎◌, some, List, [], ◌∷◌, arith}
use cu_ebpf.Session.{Mac, SessionCtx, empty_map}
use cu_ebpf.Learner.{Learner, ul_session}
use cu_ebpf.Race.{
  idle, calling, populating, told, Caller, f1ap_caller, ngap_caller, upf_caller, Threads, Happening,
  runs, f1ap_hears, ngap_hears, upf_targets, upf_finds, happen_all,
}
use cu_ebpf.Race.Advance.{CanComplete}
use cu_ebpf.Race.Settles.{Settling, turns, turns-settle}
use cu_ebpf.Race.Whole.{AllWhole, happen_all-AllWhole}
use cu_ebpf.Race.Stale.{overtaken, with_reading, reading-overtaken}
use cu_ebpf.Tests.{
  update, update-IsUpdateElem, update-HasRoom, learner, mac, upf_thread, empty-Everywhere,
}

-- Both endpoints and the UPF's MAC address are known.
abbrev both_known : Learner
both_known = record learner {
  f1u_ul_teid = 0x11;
  f1u_ul_known = true;
  n3_ul_teid = 0x99;
  n3_ul_ip = 0x0a000009;
  n3_ul_known = true;
  upf_mac = mac 9;
  upf_mac_valid = true;
}

both_known-CanComplete : CanComplete both_known
both_known-CanComplete = record { on = refl; f1u = refl; n3 = refl; map = refl }

-- All three threads are in a call.
abbrev all_calling : Threads
all_calling = record {
  learner = both_known;
  upf_thread = upf_thread;
  ul_map = empty_map;
  f1ap = populating 0x11;
  ngap = calling;
  upf = told 0x11 0x99 0x0a000009;
}

all_calling-Settling : Settling all_calling
all_calling-Settling = record {
  f1ap = refl;
  ngap = tt;
  upf = (refl, refl, refl);
  goal = inr (inl tt);
}

-- The steps of the three, mixed.
abbrev mixed : List Caller
mixed =
    ngap_caller ∷ f1ap_caller ∷ upf_caller ∷ ngap_caller ∷ ngap_caller ∷ f1ap_caller ∷ upf_caller
    ∷ upf_caller ∷ f1ap_caller ∷ ngap_caller ∷ f1ap_caller ∷ upf_caller ∷ f1ap_caller ∷ ngap_caller
    ∷ f1ap_caller ∷ upf_caller ∷ ngap_caller ∷ upf_caller ∷ []

turns-settle_example :
    (happen_all update (turns mixed) all_calling).ul_map 0x11 ≡ some (ul_session both_known)
turns-settle_example =
    turns-settle update update-IsUpdateElem update-HasRoom mixed all_calling both_known-CanComplete
      all_calling-Settling (omega arith) (omega arith) (omega arith)

-- The two tunnels, and the MAC address, that are announced below.
abbrev Tunnel : ℕ → ℕ → Type 0
Tunnel teid addr = ((teid ≡ 0x99) × (addr ≡ 0x0a000009)) ⊎ ((teid ≡ 0x55) × (addr ≡ 0x0a00000a))

abbrev Found : Mac → Type 0
Found a = a ≡ mac 9

abbrev announcements : List Happening
announcements =
    upf_targets
    ∷ runs ngap_caller
    ∷ ngap_hears 0x55 0x0a00000a
    ∷ runs f1ap_caller
    ∷ upf_finds (some (mac 9))
    ∷ f1ap_hears 0x12
    ∷ []

abbrev f1ap_calling : Threads
f1ap_calling = record all_calling { upf = idle; ngap = idle }

f1ap_calling-AllWhole : AllWhole Tunnel Found f1ap_calling
f1ap_calling-AllWhole = record {
  tunnel = λ known. inl (refl, refl);
  found = λ valid. refl;
  map = empty-Everywhere _;
  f1ap = tt;
  ngap = tt;
  upf = tt;
}

happen_all-AllWhole_example : AllWhole Tunnel Found (happen_all update announcements f1ap_calling)
happen_all-AllWhole_example =
    happen_all-AllWhole Tunnel Found update update-IsUpdateElem announcements f1ap_calling
      (tt, (tt, (inr (refl, refl), (tt, (refl, (tt, tt)))))) f1ap_calling-AllWhole

reading-overtaken_example :
    let s' =
      happen_all update (overtaken 0x55 0x0a00000a) (with_reading 0x99 0x0a000009 all_calling) in
    (s'.f1ap ≡ idle)
    × (s'.ngap ≡ idle)
    × (s'.learner.n3_ul_teid ≡ 0x55)
    × (s'.learner.n3_ul_ip ≡ 0x0a00000a)
    × (sess : SessionCtx) × (s'.ul_map 0x11 ≡ some sess)
    × (sess.peer_teid ≡ 0x99)
    × (sess.dst_ip ≡ 0x0a000009)
reading-overtaken_example =
    reading-overtaken update update-HasRoom all_calling 0x99 0x0a000009 0x55 0x0a00000a
      both_known-CanComplete (omega arith)
