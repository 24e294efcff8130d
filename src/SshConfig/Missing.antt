-- ===== src/SshConfig/Missing.antt =====
-- `parseSSHConfigBlock` of frontend/src/common.ts throws for a block without a host name.
use cozyssh.Prelude.{
  ◌∙◌, subst, ◌≡◌, refl, ◌∙◌, subst, inl, inr, ◌⊎◌, List, [], ◌∷◌, Option, none, some, Bool, true,
  false, Bool-cases, Option-cases, if_elim, All, find,
}
use cozyssh.SshConfig.{is_empty, starts, hash}
use cozyssh.SshConfig.Units.{Text, units, eq, trim, trim_start, split_breaks}
use cozyssh.SshConfig.Options.{eq_sound}
use cozyssh.SshConfig.Read.{
  Parsed, Field, fields, assign, assign_line, read_line, skip_hashes, scan_line, scan, finish,
  blank, parse_ssh_config_block,
}

-- The line gives the host name.
abbrev pub names_host : Text → Bool
names_host l = elim (read_line (trim l)) [ none ↦ false | some e ↦ eq (e.0) (units "hostname") ]

abbrev is_hostname : Field → Bool
is_hostname Field.host = false
is_hostname Field.hostname = true
is_hostname Field.user = false
is_hostname Field.port = false
is_hostname Field.identity_file = false
is_hostname Field.proxy_jump = false
is_hostname Field.remote_command = false
is_hostname Field.address_family = false
is_hostname Field.user_known_hosts_file = false
is_hostname Field.strict_host_key_checking = false
is_hostname Field.host_key_algorithms = false
is_hostname Field.verify_host_key_dns = false
is_hostname Field.send_env = false
is_hostname Field.local_forward = false
is_hostname Field.remote_forward = false
is_hostname Field.dynamic_forward = false

assign_keeps :
    (f : Field) (v : Text) (p : Parsed)
    → is_hostname f ≡ false
    → (assign f v p).read.hostname ≡ p.read.hostname
unfolding assign
assign_keeps Field.host v p h = refl
assign_keeps Field.hostname v p h = cc
assign_keeps Field.user v p h = refl
assign_keeps Field.port v p h = refl
assign_keeps Field.identity_file v p h = refl
assign_keeps Field.proxy_jump v p h = refl
assign_keeps Field.remote_command v p h = refl
assign_keeps Field.address_family v p h = refl
assign_keeps Field.user_known_hosts_file v p h = refl
assign_keeps Field.strict_host_key_checking v p h = refl
assign_keeps Field.host_key_algorithms v p h = refl
assign_keeps Field.verify_host_key_dns v p h = refl
assign_keeps Field.send_env v p h = refl
assign_keeps Field.local_forward v p h = refl
assign_keeps Field.remote_forward v p h = refl
assign_keeps Field.dynamic_forward v p h = refl

entry_inj : {d e : Text × Field} → some d ≡ some e → d ≡ e
entry_inj e = cc

not_host :
    (key : Text) (d : Text × Field)
    → (is_hostname (d.1) ≡ false) ⊎ (d.0 ≡ units "hostname")
    → eq key (d.0) ≡ true
    → eq key (units "hostname") ≡ false
    → is_hostname (d.1) ≡ false
not_host key d (inl k) hit h = k
not_host key d (inr k) hit h =
    absurd
      (let e = subst (λ x. eq x (units "hostname") ≡ false) (eq_sound key (d.0) hit ∙ k) h in cc)

found_lem :
    (key : Text) (es : List (Text × Field)) (e : Text × Field)
    → find (λ e. eq key (e.0)) es ≡ some e
    → All (λ e. (is_hostname (e.1) ≡ false) ⊎ (e.0 ≡ units "hostname")) es
    → eq key (units "hostname") ≡ false
    → is_hostname (e.1) ≡ false
found_lem key [] e f a h = cc
found_lem key (d ∷ es) e f (a, as') h = elim (Bool-cases (eq key (d.0))) [
  | inr miss ↦ found_lem key es e (rw miss at f) as' h
  | inl hit ↦
      subst (λ (x : Text × Field). is_hostname (x.1) ≡ false) (entry_inj (rw hit at f))
        (not_host key d a hit h)
]

line_keeps :
    (o : Option (Text × Text)) (p : Parsed)
    → elim o [ none ↦ false | some e ↦ eq (e.0) (units "hostname") ] ≡ false
    → (assign_line o p).read.hostname ≡ p.read.hostname
unfolding assign_line
line_keeps none p h = refl
line_keeps (some (key, v)) p h = elim (Option-cases (find (λ e. eq key (e.0)) fields)) [
  | inl n ↦ rw (n, assign_line) refl
  | inr (e, f) ↦
      rw (f, assign_line) (assign_keeps (e.1) v p (found_lem key fields e f all_fields h))
]
  where
    all_fields : All (λ e. (is_hostname (e.1) ≡ false) ⊎ (e.0 ≡ units "hostname")) fields
    all_fields = (
      inl refl,
      (
        inr refl,
        (
          inl refl,
          (
            inl refl,
            (
              inl refl,
              (
                inl refl,
                (
                  inl refl,
                  (
                    inl refl,
                    (
                      inl refl,
                      (
                        inl refl,
                        (inl refl, (inl refl, (inl refl, (inl refl, (inl refl, (inl refl, tt)))))),
                      ),
                    ),
                  ),
                ),
              ),
            ),
          ),
        ),
      ),
    )

scan_line_keeps :
    (l : Text) (p : Parsed) → names_host l ≡ false → (scan_line l p).read.hostname ≡ p.read.hostname
unfolding scan_line
scan_line_keeps l p h =
    if_elim (λ (q : Parsed). q.read.hostname ≡ p.read.hostname) (is_empty (trim l)) (λ _. refl)
      (λ _.
        if_elim (λ (q : Parsed). q.read.hostname ≡ p.read.hostname) (starts hash (trim l))
          (λ _.
            if_elim (λ (q : Parsed). q.read.hostname ≡ p.read.hostname)
              (is_empty (trim (trim_start (skip_hashes (trim l))))) (λ _. refl) (λ _. refl))
          (λ _. line_keeps (read_line (trim l)) p h))

scan_keeps :
    (ls : List Text) (p : Parsed)
    → All (λ l. names_host l ≡ false) ls
    → (scan ls p).read.hostname ≡ p.read.hostname
unfolding scan
scan_keeps [] p h = refl
scan_keeps (l ∷ ls) p (a, h) = scan_keeps ls (scan_line l p) h ∙ scan_line_keeps l p a

-- A block none of whose lines gives the host name, whatever else they hold, throws.
pub parse_ssh_config_block_error :
    (text : Text)
    → All (λ l. names_host l ≡ false) (split_breaks text)
    → parse_ssh_config_block text ≡ none
unfolding parse_ssh_config_block
parse_ssh_config_block_error text h = rw (scan_keeps (split_breaks text) blank h, finish) refl
