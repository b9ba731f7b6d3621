-- ===== src/UnitPolicy/Tests.antt =====
-- Runs of the policy on a unit as the generator writes it.
use obacht_agent.Base.{
  All, length, ◌≤◌, Bool, true, false, list_beq, ◌≡◌, refl, List, [], ◌∷◌, ◌++◌, map,
}
use obacht_agent.Base.Result.{ok}
use obacht_agent.Base.Text.{
  Text, text, byte_len, trim_right, trim_left, trim_space, has_suffix, has_prefix, split_by, fields,
  contains,
}
use obacht_agent.Base.Regex.{accepts}
use obacht_agent.UnitPolicy.Rules.{
  service, repeatable, lookup, validate_unit, validate_service, validate_groups, exact_or,
  check_each, check_tokens, check_exec, validate_name, validate_kv, validate_exec_start,
}
use obacht_agent.UnitPolicy.Directives.{directives, values}
use obacht_agent.UnitPolicy.Hardened.{IsHardened, validate-IsHardened}
use obacht_agent.UnitPolicy.Confined.{
  IsConfined, validate-IsConfined, validate-IsSingle, validate-IsPlainName, name_char,
}
use obacht_agent.UnitPolicy.Scan.{
  validate, check_entry, check_line, scan, check_presence, check_required, section_re, lines, kv_re,
}

abbrev join_lines : List Text → Text
join_lines [] = []
join_lines (l ∷ ls) = l ++ (b'\n' ∷ join_lines ls)

abbrev sample_name : Text
sample_name = text "obacht-svc-ab12-cam.service"

abbrev sample_unit : Text
sample_unit = join_lines (
    map text (
      "[Unit]" ∷ "Description=obacht managed service ab12-cam (go2rtc)"
      ∷ "After=network-online.target" ∷ "" ∷ "[Service]" ∷ "Type=exec"
      ∷ "ExecStart=/opt/obacht/system/bin/00ff/go2rtc -config /etc/obacht/svc/ab12-cam/go2rtc.yaml"
      ∷ "DynamicUser=yes" ∷ "NoNewPrivileges=yes" ∷ "ProtectSystem=strict" ∷ "ProtectHome=yes"
      ∷ "PrivateTmp=yes" ∷ "RestrictSUIDSGID=yes" ∷ "DevicePolicy=closed"
      ∷ "DeviceAllow=char-drm rw" ∷ "DeviceAllow=char-media rw" ∷ "SupplementaryGroups=render video"
      ∷ "StateDirectory=obacht-svc/ab12-cam" ∷ "RestrictAddressFamilies=AF_UNIX AF_INET AF_INET6"
      ∷ "Restart=always" ∷ "RestartSec=2" ∷ "Environment=TZ=Europe/Berlin" ∷ "" ∷ "[Install]"
      ∷ "WantedBy=multi-user.target" ∷ []))

-- All that a run of `validate` computes with.
abbrev runs : Bool
unfolding validate check_entry check_line scan check_presence check_required section_re lines
    byte_len trim_right trim_left trim_space has_suffix has_prefix split_by list_beq fields contains
    lookup validate_unit validate_service validate_groups exact_or check_each check_tokens
    check_exec validate_name validate_kv validate_exec_start kv_re accepts
runs = true

sample_accepted : validate sample_name sample_unit ≡ ok tt
unfolding runs
sample_accepted = refl

validate-IsHardened_example : IsHardened (directives sample_unit)
validate-IsHardened_example = validate-IsHardened sample_name sample_unit sample_accepted

validate-IsConfined_example : All IsConfined (directives sample_unit)
validate-IsConfined_example = validate-IsConfined sample_name sample_unit sample_accepted

groups_once : repeatable (text "SupplementaryGroups") ≡ false
unfolding list_beq
groups_once = refl

validate-IsSingle_example :
    length (values service (text "SupplementaryGroups") (directives sample_unit)) ≤ 1
validate-IsSingle_example =
    validate-IsSingle sample_name sample_unit sample_accepted service (text "SupplementaryGroups")
      groups_once

validate-IsPlainName_example : All (λ c. name_char c ≡ true) sample_name
validate-IsPlainName_example = validate-IsPlainName sample_name sample_unit sample_accepted
