-- ===== src/Tracker/Origin.antt =====
-- tracker/server.go: which addresses a tracker takes from a request's origin.
use raag.Prelude.{
  ◌≡◌, ◌↔◌, ◌⊎◌, inl, inr, Str, codes, Bool, true, false, ◌&&◌, ◌||◌, ◌++◌, some, arith, contains,
  to_lower, Option-cases, Bool-cases,
}
use raag.Tracker.Request.{Addresses, is_valid_registration_addr}

module _ (n : Addresses) where
  open n use {Ip, parse_ip, is_private, new_multiaddr, ip4_value}

  -- The text of an address names the local machine or the origin.
  abbrev pub names_origin : Str → Str → Bool
  names_origin maddr remote_ip =
      contains (to_lower maddr) (codes "/127.0.0.1/")
      || contains (to_lower maddr) (codes "/localhost/")
      || contains (to_lower maddr) (codes "/" ++ (remote_ip ++ codes "/"))

  -- Both parse, and not both are private.
  pub record Differs (maddr remote_ip : Str) : Type 0 where
    pub remote : Ip
    pub parsed : n.Multiaddr
    pub text : Str
    pub ip : Ip
    pub remote_parses : parse_ip remote_ip ≡ some remote
    pub addr_parses : new_multiaddr maddr ≡ some parsed
    pub ip4 : ip4_value parsed ≡ some text
    pub ip_parses : parse_ip text ≡ some ip
    pub one_public : (is_private ip && is_private remote) ≡ false

  differs :
      (maddr remote_ip : Str)
      → is_valid_registration_addr n maddr remote_ip ≡ true
      → names_origin maddr remote_ip ≡ false
      → Differs maddr remote_ip
  unfolding is_valid_registration_addr
  differs maddr remote_ip v o = elim (Option-cases (parse_ip remote_ip)) [
    | inl e ↦ ground arith
    | inr (remote, e) ↦ elim (Option-cases (new_multiaddr maddr)) [
      | inl f ↦ ground arith
      | inr (parsed, f) ↦ elim (Option-cases (ip4_value parsed)) [
        | inl g ↦ ground arith
        | inr (text, g) ↦ elim (Option-cases (parse_ip text)) [
          | inl h ↦ ground arith
          | inr (ip, h) ↦ record {
            remote = remote;
            parsed = parsed;
            text = text;
            ip = ip;
            remote_parses = e;
            addr_parses = f;
            ip4 = g;
            ip_parses = h;
            one_public = ground arith;
          }
        ]
      ]
    ]
  ]

  -- An address is taken exactly if its text names the local machine or the origin, or it has an
  -- IPv4 address, the origin is an IP address, and at least one of the two is public: a public
  -- address need not be the origin's.
  pub is_valid_registration_addr_iff :
      (maddr remote_ip : Str)
      → (is_valid_registration_addr n maddr remote_ip ≡ true)
        ↔ ((names_origin maddr remote_ip ≡ true) ⊎ Differs maddr remote_ip)
  unfolding is_valid_registration_addr
  is_valid_registration_addr_iff maddr remote_ip = (
    λ v. elim (Bool-cases (names_origin maddr remote_ip)) [
      | inl o ↦ inl o
      | inr o ↦ inr (differs maddr remote_ip v o)
    ],
    elim [
      | inl o ↦ ground arith
      | inr d ↦ ground (arith, d.remote_parses, d.addr_parses, d.ip4, d.ip_parses, d.one_public)
    ],
  )
