-- ===== src/Remote/Command.antt =====
-- internal/remote/executor.go, connection.go and session.go: `BuildCommand` and the quoting of its words.
pub mod Quoting
use nex_shell.Prelude.{
  ℕ, Bool, true, false, not, ◌&&◌, ◌||◌, List, [], ◌∷◌, ◌++◌, ◌==◌, leb, if◌then◌else◌, Bytes,
  codes, trim_space, has_prefix, Result, ok, err,
}
use nex_shell.Agent.Paths.{is_empty}
use nex_shell.Agent.Policy.{is}
use nex_shell.Agent.Types.{Request}

-- `replaceQuotes`, with the quote that ends the word
unfoldable pub quoted : Bytes → Bytes
quoted [] = b'\'' ∷ []
quoted (c ∷ s) =
    let rest = quoted s in
    if c == b'\'' then b'\'' ∷ b'"' ∷ b'\'' ∷ b'"' ∷ b'\'' ∷ rest else c ∷ rest

-- `Quote`
unfoldable pub quote : Bytes → Bytes
quote s = b'\'' ∷ quoted s

is_alnum : ℕ → Bool
is_alnum c = leb b'a' c && leb c b'z' || leb b'A' c && leb c b'Z' || leb b'0' c && leb c b'9'

is_name_part : ℕ → Bool
unfolding is_alnum
is_name_part c =
    is_alnum c || c == b'_' || c == b'.' || c == b'@' || c == b':' || c == b'+' || c == b'-'

all_name_parts : Bytes → Bool
all_name_parts [] = true
all_name_parts (c ∷ s) = is_name_part c && all_name_parts s

-- `resourceName`
unfoldable pub is_resource_name : Bytes → Bool
unfolding is_alnum all_name_parts is_name_part
is_resource_name [] = false
is_resource_name (c ∷ s) = is_alnum c && all_name_parts s

pub data BadCommand : Type 0 where
  bad_service bad_package no_command not_supported : BadCommand

abbrev pub service_verb : Bytes → Bytes
service_verb op = if is "service_restart" op then codes "restart" else codes "status"

abbrev pub install_command : Bytes → Bytes
install_command name =
    codes
      "if command -v apt-get >/dev/null 2>&1; then DEBIAN_FRONTEND=noninteractive apt-get install -y -- "
    ++ quote name
    ++ codes "; elif command -v dnf >/dev/null 2>&1; then dnf install -y -- "
    ++ quote name
    ++ codes "; else printf '%s\\n' 'no package manager' >&2; exit 127; fi"

-- `BuildCommand`, with the text of `monitorScript`; one message of the install command is in Chinese in the
-- source
unfoldable pub build_command : Bytes → Request → Result BadCommand Bytes
build_command script r =
    if is "observe" r.operation
    then ok script
    else if is "service_status" r.operation || is "service_restart" r.operation
    then (if not (is_resource_name r.resource)
        then err bad_service
        else ok (
            codes "systemctl --no-pager "
            ++ service_verb r.operation
            ++ codes " -- "
            ++ quote r.resource))
    else if is "logs" r.operation
    then (if not (is_resource_name r.resource)
        then err bad_service
        else ok (codes "journalctl --no-pager -n 150 -u " ++ quote r.resource))
    else if is "package_install" r.operation
    then (if not (is_resource_name r.resource) || has_prefix (codes "-") r.resource
        then err bad_package
        else ok (install_command r.resource))
    else if is "shell" r.operation
    then (if is_empty (trim_space r.command) then err no_command else ok r.command)
    else err not_supported
