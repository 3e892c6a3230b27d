-- ===== src/Policy/Defs.antt =====
-- The safety policy of a session: browser/policy.go, with the action table of
-- browser/action_definitions.go. Texts are lists of code points; the reason texts are left out.
use deepwork_browser.Prelude.{
  ℕ, Bool, true, false, not, ◌&&◌, ◌||◌, List, [], ◌∷◌, Option, none, some, any, if◌then◌else◌,
  Text, codes, text_eq, trim_space, to_lower, cut_prefix, has_prefix, has_suffix, drop, drop_last,
  before, split_host_port, lower_rune, nat_eq,
}
use mathlib.Core.List.{map}

pub data RemoteWritePolicy : Type 0 where
  unset deny confirm allow : RemoteWritePolicy
  other : Text → RemoteWritePolicy

pub record SessionPolicy : Type 0 where
  pub remote_writes : RemoteWritePolicy
  pub allow_hosts : List Text
  pub deterministic : Bool

abbrev pub default_session_policy : SessionPolicy
default_session_policy = record { remote_writes = deny; allow_hosts = []; deterministic = false }

unfoldable pub normalize_remote_write_policy : Text → RemoteWritePolicy → RemoteWritePolicy
unfolding trim_space to_lower
normalize_remote_write_policy raw fallback =
    let word = to_lower (trim_space raw) in
    if text_eq word (codes "deny")
    then deny
    else if text_eq word (codes "confirm")
    then confirm
    else if text_eq word (codes "allow")
    then allow
    else elim fallback [ unset ↦ deny | p ↦ p ]

unfoldable pub effective_remote_writes : SessionPolicy → RemoteWritePolicy
effective_remote_writes p = elim p.remote_writes [ unset ↦ deny | w ↦ w ]

-- An action kind and whether it changes the page.
abbrev pub action_definitions : List (Text × Bool)
action_definitions =
    (codes "click", true)
    ∷ (codes "tap", true)
    ∷ (codes "hover", false)
    ∷ (codes "fill", true)
    ∷ (codes "type", true)
    ∷ (codes "press", true)
    ∷ (codes "focus", false)
    ∷ (codes "select", true)
    ∷ (codes "set-checked", true)
    ∷ (codes "scroll", false)
    ∷ (codes "scrollto", false)
    ∷ (codes "drag", true)
    ∷ (codes "swipe", true)
    ∷ (codes "navigate", false)
    ∷ (codes "reload", false)
    ∷ (codes "back", false)
    ∷ (codes "forward", false)
    ∷ (codes "zoom", true)
    ∷ (codes "keyboard", true)
    ∷ []

unfoldable pub find_definition : Text → List (Text × Bool) → Option Bool
find_definition kind [] = none
find_definition kind ((k, mutates) ∷ rest) =
    if text_eq k kind then some mutates else find_definition kind rest

unfoldable pub lookup_action_definition : Text → Option Bool
unfolding find_definition
lookup_action_definition kind = find_definition kind action_definitions

unfoldable pub is_mutating_op : Text → Bool
unfolding lookup_action_definition to_lower trim_space
is_mutating_op op = elim (lookup_action_definition (to_lower (trim_space op))) [
  | none ↦ true
  | some mutates ↦ mutates
]

abbrev strip_brackets : Text → Text
strip_brackets authority =
    if has_prefix authority (codes "[") && has_suffix authority (codes "]")
    then drop_last (drop 1 authority)
    else authority

abbrev drop_scheme : List Text → Text → Text
drop_scheme [] origin = origin
drop_scheme (p ∷ ps) origin = elim (cut_prefix origin p) [
  | some rest ↦ rest
  | none ↦ drop_scheme ps origin
]

unfoldable pub origin_host : Text → Text
unfolding trim_space cut_prefix split_host_port before has_prefix has_suffix
origin_host origin =
    let rest =
      drop_scheme (codes "http://" ∷ codes "https://" ∷ codes "ws://" ∷ codes "wss://" ∷ [])
        (trim_space origin) in
    let authority = before b'/' rest in
    elim (split_host_port authority) [ some (host, port) ↦ host | none ↦ strip_brackets authority ]

-- `strings.EqualFold` on the letters of ASCII and the two others that fold to them.
abbrev fold_rune : ℕ → ℕ
fold_rune c = if nat_eq c 0x130 then c else if nat_eq c 0x17F then b's' else lower_rune c

unfoldable pub equal_fold : Text → Text → Bool
unfolding lower_rune
equal_fold s t = text_eq (map fold_rune s) (map fold_rune t)

pub record ActDecision : Type 0 where
  pub allowed : Bool
  pub needs_confirm : Bool

abbrev pub permit : ActDecision
permit = record { allowed = true; needs_confirm = false }

-- `is_local_ip host`: `net.ParseIP` reads the host as an address that is loopback, private, link-local
-- unicast or unspecified.
module _ (is_local_ip : Text → Bool) where
  unfoldable pub is_trusted_origin : Text → List Text → Bool
  is_trusted_origin origin allow_hosts =
      let host = origin_host origin in
      if text_eq host []
      then false
      else if text_eq (to_lower host) (codes "localhost")
          || has_suffix (to_lower host) (codes ".localhost")
      then true
      else if any (λ h. equal_fold (trim_space h) host) allow_hosts
      then true
      else is_local_ip host

  unfoldable pub evaluate_act : SessionPolicy → Text → Text → ActDecision
  evaluate_act p op current_origin =
      if not (is_mutating_op op)
      then permit
      else if is_trusted_origin current_origin p.allow_hosts
      then permit
      else elim (effective_remote_writes p) [
        | allow ↦ permit
        | confirm ↦ record { allowed = false; needs_confirm = true }
        | _ ↦ record { allowed = false; needs_confirm = false }
      ]
