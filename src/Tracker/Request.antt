-- ===== src/Tracker/Request.antt =====
-- tracker/server.go: what a request carries, and how its origin and its addresses are judged.
use raag.Prelude.{
  Str, codes, Bool, true, false, not, ◌&&◌, ◌||◌, List, [], ◌∷◌, ◌++◌, Option, none, some, to_lower,
  contains, trim_space, before_byte, if◌then◌else◌,
}

-- The fields of a registration.
pub record Registration : Type 0 where
  pub addrs : List Str
  pub peer_id : Str
  pub auth_data : Str

-- An HTTP request; `x_forwarded_for` is empty where the header is missing.
pub record Request : Type 0 where
  pub method : Str
  pub path : Str
  pub x_forwarded_for : Str
  pub remote_addr : Str
  pub body : Str

-- The libraries that read addresses; `none` is an error.
pub record Addresses : Type 1 where
  pub Ip : Type 0
  pub Multiaddr : Type 0
  pub split_host_port : Str → Option Str
  pub parse_ip : Str → Option Ip
  pub is_private : Ip → Bool
  pub new_multiaddr : Str → Option Multiaddr
  pub ip4_value : Multiaddr → Option Str
  pub addr_info_id : Str → Option Str
  pub decode_registration : Str → Option Registration

-- constants.DefaultPort
abbrev pub default_port : Str
default_port = codes "45678"

module _ (n : Addresses) where
  open n use {Ip, split_host_port, parse_ip, is_private, new_multiaddr, ip4_value}

  unfoldable pub extract_remote_ip : Request → Str
  extract_remote_ip r = elim r.x_forwarded_for [
    | c ∷ s ↦ trim_space (before_byte b',' (c ∷ s))
    | [] ↦ elim (split_host_port r.remote_addr) [ some host ↦ host | none ↦ r.remote_addr ]
  ]

  -- The three branches that end the function.
  judge_ip : Ip → Ip → Bool
  judge_ip ip remote =
      if is_private ip && is_private remote
      then false
      else if is_private ip && not (is_private remote)
      then true
      else true

  unfoldable pub is_valid_registration_addr : Str → Str → Bool
  unfolding judge_ip
  is_valid_registration_addr maddr remote_ip =
      let lower = to_lower maddr in
      if contains lower (codes "/127.0.0.1/") || contains lower (codes "/localhost/")
      then true
      else if contains lower (codes "/" ++ (remote_ip ++ codes "/"))
      then true
      else elim (parse_ip remote_ip) [
        | none ↦ false
        | some remote ↦ elim (new_multiaddr maddr) [
          | none ↦ false
          | some parsed ↦ elim (ip4_value parsed) [
            | none ↦ false
            | some text ↦ elim (parse_ip text) [ none ↦ false | some ip ↦ judge_ip ip remote ]
          ]
        ]
      ]

  -- The addresses that stand in for those a peer does not send.
  unfoldable pub observed_addrs : Str → Str → List Str
  observed_addrs remote_ip peer_id =
      (codes "/ip4/"
        ++ (remote_ip ++ (codes "/tcp/" ++ (default_port ++ (codes "/p2p/" ++ peer_id)))))
      ∷ (codes "/ip4/"
          ++ (remote_ip ++ (codes "/udp/" ++ (default_port ++ (codes "/quic-v1/p2p/" ++ peer_id)))))
      ∷ []
