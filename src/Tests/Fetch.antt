-- ===== src/Tests/Fetch.antt =====
-- Concrete runs of the calendar fetch.
use hostrepository.Base.{◌≡◌, none, some, [], ◌∷◌, any, arith, ◌==◌, if◌then◌else◌}
use hostrepository.Base.Text.{codes, same_text}
use hostrepository.Calendar.Fetch.{Network, Url, fetch_calendar}
use hostrepository.Calendar.Addresses.{is_blocked_ipv4}
use hostrepository.Calendar.Addresses.Blocked.{
  dotted, covers, address_number, reserved_ranges, is_blocked_ipv4-dotted,
}
use hostrepository.Calendar.Fetch.Guarded.{IsGuarded, fetch_calendar-IsGuarded}

is_blocked_ipv4-dotted_example :
    is_blocked_ipv4 (dotted 172 16 254 1)
    ≡ any (covers (address_number 172 16 254 1)) reserved_ranges
is_blocked_ipv4-dotted_example =
    is_blocked_ipv4-dotted 172 16 254 1 (omega arith) (omega arith) (omega arith) (omega arith)

abbrev url : Url
url = record {
  protocol = codes "https:";
  username = [];
  password = [];
  port = [];
  hostname = codes "calendars.example";
  href = codes "https://calendars.example/1.ics";
}

-- The first answer redirects, the second has no body.
abbrev net : Network
net = record {
  is_ip = λ s. if same_text s (codes "calendars.example") then 0 else 4;
  parse_url = λ s. some url;
  resolve_url = λ s base. some s;
  resolver = λ round host. some (codes "93.184.216.34" ∷ []);
  fetch = λ round safe. some (record {
    status = if round == 0 then 302 else 200;
    etag = none;
    last_modified = none;
    location = some (codes "/2.ics");
    content_type = none;
    content_length = none;
    body = none;
  });
}

fetch_calendar-IsGuarded_example :
    IsGuarded net 4 (fetch_calendar net (codes "https://calendars.example/1.ics"))
fetch_calendar-IsGuarded_example =
    fetch_calendar-IsGuarded net (codes "https://calendars.example/1.ics")
