-- ===== src/Tests/Live.antt =====
-- Runs on a server that accepts every write, and times.
use ds_operator.Prelude.{◌≡◌, ok, arith}
use ds_operator.Ldap.Times.{Time, time2_directory_time_string, directory_time2_time, days_in}
use ds_operator.Ldap.Times.RoundTrip.{IsCivil, directory_time2_time-time2_directory_time_string}
use ds_operator.Tests.Served

abbrev afternoon : Time
afternoon = record {
  year = 2023;
  month = 7;
  day = 9;
  hour = 14;
  minute = 35;
  second = 6;
  nanosecond = 8;
}

afternoon-IsCivil : IsCivil afternoon
unfolding days_in
afternoon-IsCivil = record {
  year = omega arith;
  month_first = omega arith;
  month_last = omega arith;
  day_first = omega arith;
  day_last = omega arith;
  hour = omega arith;
  second = omega arith;
}

directory_time2_time-time2_directory_time_string_example :
    directory_time2_time (time2_directory_time_string afternoon)
    ≡ ok (record afternoon { minute = 0; nanosecond = 0 })
directory_time2_time-time2_directory_time_string_example =
    directory_time2_time-time2_directory_time_string afternoon afternoon-IsCivil
