-- ===== src/System/Validity.antt =====
-- Every state that the two programs can reach keeps its session maps usable, so what is said of a
-- redirected packet holds throughout.
use cu_ebpf.Base.{ℕ, inl, inr, List}
use cu_ebpf.Session.{SessionMap, ServesF1u, ServesN3, IsUpdateElem}
use cu_ebpf.Xdp.{IsAdjustTail}
use cu_ebpf.Learner.{Learner}
use cu_ebpf.Watcher.{du_ip, f1ap_line, ngap_line}
use cu_ebpf.Watcher.Lines.{f1ap_line_cases, ngap_line_cases}
use cu_ebpf.Program.Sequence.{parse_gtpu-ul_map}
use cu_ebpf.System.{
  Platform, System, Step, receive, poll, f1ap, ngap, du_mac, upf_mac, seed, Reach, here, after,
}
use cu_ebpf.System.Writers.{
  IsInet, LearnerFits, Serving, du_mac_refresh-fits, f1ap_endpoint-Serving, ngap_endpoint-Serving,
  parse_gtpu-ServesF1u, print_event-ServesF1u, seed_session-ServesF1u, upf_mac_refresh-ServesN3,
  upf_mac_refresh-fits,
}

pub record IsValid (s : System) : Type 0 where
  pub learner : LearnerFits s.learner
  pub dl : ServesF1u s.kernel.session_map
  pub ul : ServesN3 s.kernel.ul_session_map

pub record IsPlatform (pl : Platform) : Type 0 where
  pub tail : IsAdjustTail pl.helpers.adjust_tail
  pub maps : IsUpdateElem pl.update
  pub words : IsInet pl.inet

module _ {pl : Platform} (is : IsPlatform pl) where
  f1ap_line-Serving :
      (line : List ℕ) (l : Learner) (m : SessionMap)
      → LearnerFits l
      → ServesN3 m
      → Serving (f1ap_line pl.inet pl.update line (l, m))
  f1ap_line-Serving line l m fits serves = elim (f1ap_line_cases pl.inet pl.update (l, m) line) [
    | inl same ↦ rw same (fits, serves)
    | inr (x, e) ↦ rw e (f1ap_endpoint-Serving pl.inet is.words pl.update is.maps l m fits serves x)
  ]

  ngap_line-Serving :
      (line : List ℕ) (l : Learner) (m : SessionMap)
      → LearnerFits l
      → ServesN3 m
      → Serving (ngap_line pl.inet pl.update line (l, m))
  ngap_line-Serving line l m fits serves = elim (ngap_line_cases pl.inet pl.update (l, m) line) [
    | inl same ↦ rw same (fits, serves)
    | inr (x, e) ↦ rw e (ngap_endpoint-Serving pl.inet is.words pl.update is.maps l m fits serves x)
  ]

  Step-IsValid : {s t : System} → Step pl s t → IsValid s → IsValid t
  Step-IsValid (receive s p) v = record {
    learner = v.learner;
    dl = parse_gtpu-ServesF1u pl.helpers s.kernel p v.dl;
    ul = rw (parse_gtpu-ul_map pl.helpers s.kernel p) v.ul;
  }
  Step-IsValid (poll s e es taken) v = record {
    learner = v.learner;
    dl = print_event-ServesF1u pl.update is.maps s.learner v.learner e s.kernel.session_map v.dl;
    ul = v.ul;
  }
  Step-IsValid (f1ap s line) v =
      let w = f1ap_line-Serving line s.learner s.kernel.ul_session_map v.learner v.ul in
      record { learner = w.0; dl = v.dl; ul = w.1 }
  Step-IsValid (ngap s line) v =
      let w = ngap_line-Serving line s.learner s.kernel.ul_session_map v.learner v.ul in
      record { learner = w.0; dl = v.dl; ul = w.1 }
  Step-IsValid (du_mac s found) v = record {
    learner = du_mac_refresh-fits found s.learner v.learner;
    dl = v.dl;
    ul = v.ul;
  }
  Step-IsValid (upf_mac s arp) v = record {
    learner = upf_mac_refresh-fits pl.update arp _ v.learner;
    dl = v.dl;
    ul = upf_mac_refresh-ServesN3 pl.update is.maps arp _ v.learner v.ul;
  }
  Step-IsValid (seed s variable addr fits reads) v = record {
    learner = v.learner;
    dl =
        seed_session-ServesF1u pl.update is.maps addr variable s.learner s.kernel.session_map
          v.learner (is.words du_ip addr reads) fits v.dl;
    ul = v.ul;
  }

  -- Every state that is reached from a valid one is valid: what the learner knows fits its words,
  -- session_map has entries for the DU's port 2153 only, and ul_session_map has ready entries for the
  -- UPF's port 2152 only. Assumed: bpf_map_update_elem and inet_pton keep their word.
  pub Reach-IsValid : {s t : System} → IsValid s → Reach pl s t → IsValid t
  Reach-IsValid v here = v
  Reach-IsValid v (after r st) = Step-IsValid st (Reach-IsValid v r)
