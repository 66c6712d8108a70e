-- ===== src/Configurer/Tests.antt =====
-- The theorems on src/configurer.cpp, applied to short lines.
use libmaycloud.Common.{[]}
use libmaycloud.Configurer.{Configurer}

abbrev fresh : Configurer
fresh = record { actual_map = []; params = []; local_params = [] }
