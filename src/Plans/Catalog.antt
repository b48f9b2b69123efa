-- ===== src/Plans/Catalog.antt =====
-- The plans and what they offer. Prices are in cents; an absent field of a literal is Go's zero.
use torrin.Prelude.{ℕ, Bool, true, false, List, [], ◌∷◌}
use torrin.Prelude.Int.{ℤ, negsuc}
use torrin.Prelude.Text.{Text, bytes}

pub record Plan : Type 0 where
  pub id : Text
  pub name : Text
  pub day_prices : List (ℕ × ℕ)
  pub monthly_price : ℕ
  pub monthly_full_price : ℕ
  pub yearly_price : ℕ
  pub yearly_full_price : ℕ
  pub lifetime_price : ℕ
  pub lifetime_full_price : ℕ
  pub max_concurrent : ℕ
  pub cold_pulls_per_hour : ℕ
  pub max_download_mbps : ℕ
  pub max_torrent_bytes : ℕ
  pub monthly_ingest_bytes : ℕ
  pub cached_streams : ℤ
  pub seed_slots : ℕ
  pub priority : ℕ
  pub features : List Text
  pub badge : Text
  pub system_usenet : Bool
  pub rss : Bool

abbrev pub free_features : List Text
free_features =
    bytes "1 concurrent download"
    ∷ bytes "50 GB max torrent"
    ∷ bytes "3-day trial"
    ∷ bytes "WebDAV"
    ∷ bytes "Shared cache"
    ∷ bytes "Stremio addon"
    ∷ bytes "Referral credits"
    ∷ []

abbrev pub free : Plan
free = record {
  id = bytes "free";
  name = bytes "Free";
  day_prices = [];
  monthly_price = 0;
  monthly_full_price = 0;
  yearly_price = 0;
  yearly_full_price = 0;
  lifetime_price = 0;
  lifetime_full_price = 0;
  max_concurrent = 1;
  cold_pulls_per_hour = 15;
  max_download_mbps = 250;
  max_torrent_bytes = 50_000_000_000;
  monthly_ingest_bytes = 500_000_000_000;
  cached_streams = negsuc 0;
  seed_slots = 0;
  priority = 0;
  features = free_features;
  badge = [];
  system_usenet = false;
  rss = false;
}

abbrev pub starter_features : List Text
starter_features =
    bytes "2 concurrent downloads"
    ∷ bytes "100 GB max torrent"
    ∷ bytes "Cairn permanent archive"
    ∷ bytes "Hoster link support"
    ∷ bytes "Private-tracker seeding"
    ∷ bytes "BYOK Usenet"
    ∷ bytes "BYOK Real-Debrid"
    ∷ bytes "BYOK Premiumize"
    ∷ bytes "BYOK TorBox"
    ∷ bytes "Library import (RD, AllDebrid, TorBox, Offcloud)"
    ∷ bytes "WebDAV"
    ∷ bytes "Shared cache"
    ∷ bytes "Stremio addon"
    ∷ bytes "Referral credits"
    ∷ []

abbrev pub starter : Plan
starter = record {
  id = bytes "starter";
  name = bytes "Starter";
  day_prices = (7, 149) ∷ (15, 249) ∷ [];
  monthly_price = 299;
  monthly_full_price = 0;
  yearly_price = 2870;
  yearly_full_price = 0;
  lifetime_price = 8900;
  lifetime_full_price = 0;
  max_concurrent = 2;
  cold_pulls_per_hour = 40;
  max_download_mbps = 500;
  max_torrent_bytes = 100_000_000_000;
  monthly_ingest_bytes = 2_000_000_000_000;
  cached_streams = negsuc 0;
  seed_slots = 3;
  priority = 1;
  features = starter_features;
  badge = [];
  system_usenet = false;
  rss = false;
}

abbrev pub standard_features : List Text
standard_features =
    bytes "4 concurrent downloads"
    ∷ bytes "250 GB max torrent"
    ∷ bytes "Cairn permanent archive"
    ∷ bytes "Hoster link support"
    ∷ bytes "Private-tracker seeding"
    ∷ bytes "Usenet (included)"
    ∷ bytes "BYOK Real-Debrid"
    ∷ bytes "BYOK Premiumize"
    ∷ bytes "BYOK TorBox"
    ∷ bytes "Library import (RD, AllDebrid, TorBox, Offcloud)"
    ∷ bytes "RSS auto-download"
    ∷ bytes "WebDAV"
    ∷ bytes "Shared cache"
    ∷ bytes "Stremio addon"
    ∷ bytes "Priority queue"
    ∷ bytes "Referral credits"
    ∷ []

abbrev pub standard : Plan
standard = record {
  id = bytes "standard";
  name = bytes "Standard";
  day_prices = (7, 299) ∷ (15, 499) ∷ [];
  monthly_price = 599;
  monthly_full_price = 0;
  yearly_price = 5750;
  yearly_full_price = 0;
  lifetime_price = 16900;
  lifetime_full_price = 0;
  max_concurrent = 4;
  cold_pulls_per_hour = 80;
  max_download_mbps = 1000;
  max_torrent_bytes = 250_000_000_000;
  monthly_ingest_bytes = 4_000_000_000_000;
  cached_streams = negsuc 0;
  seed_slots = 5;
  priority = 2;
  features = standard_features;
  badge = bytes "Best value";
  system_usenet = true;
  rss = true;
}

abbrev pub pro_features : List Text
pro_features =
    bytes "8 concurrent downloads"
    ∷ bytes "1 TB max torrent"
    ∷ bytes "Cairn permanent archive"
    ∷ bytes "Hoster link support"
    ∷ bytes "Private-tracker seeding"
    ∷ bytes "Usenet (included)"
    ∷ bytes "BYOK Real-Debrid"
    ∷ bytes "BYOK Premiumize"
    ∷ bytes "BYOK TorBox"
    ∷ bytes "Library import (RD, AllDebrid, TorBox, Offcloud)"
    ∷ bytes "RSS auto-download"
    ∷ bytes "WebDAV"
    ∷ bytes "Shared cache"
    ∷ bytes "Stremio addon"
    ∷ bytes "Priority queue"
    ∷ bytes "Referral credits"
    ∷ []

abbrev pub pro : Plan
pro = record {
  id = bytes "pro";
  name = bytes "Pro";
  day_prices = (7, 599) ∷ (15, 999) ∷ [];
  monthly_price = 1199;
  monthly_full_price = 0;
  yearly_price = 11500;
  yearly_full_price = 0;
  lifetime_price = 32900;
  lifetime_full_price = 0;
  max_concurrent = 8;
  cold_pulls_per_hour = 200;
  max_download_mbps = 2500;
  max_torrent_bytes = 1_000_000_000_000;
  monthly_ingest_bytes = 8_000_000_000_000;
  cached_streams = negsuc 0;
  seed_slots = 10;
  priority = 3;
  features = pro_features;
  badge = [];
  system_usenet = true;
  rss = true;
}

abbrev pub all : List (Text × Plan)
all =
    (bytes "free", free)
    ∷ (bytes "starter", starter)
    ∷ (bytes "standard", standard)
    ∷ (bytes "pro", pro)
    ∷ []

abbrev pub by_gumroad_product : List (Text × Text)
by_gumroad_product =
    (bytes "torrin-starter-7d", bytes "starter")
    ∷ (bytes "torrin-starter-15d", bytes "starter")
    ∷ (bytes "torrin-standard-7d", bytes "standard")
    ∷ (bytes "torrin-standard-15d", bytes "standard")
    ∷ (bytes "torrin-pro-7d", bytes "pro")
    ∷ (bytes "torrin-pro-15d", bytes "pro")
    ∷ (bytes "torrin-starter-monthly", bytes "starter")
    ∷ (bytes "torrin-standard-monthly", bytes "standard")
    ∷ (bytes "torrin-pro-monthly", bytes "pro")
    ∷ (bytes "torrin-starter-yearly", bytes "starter")
    ∷ (bytes "torrin-standard-yearly", bytes "standard")
    ∷ (bytes "torrin-pro-yearly", bytes "pro")
    ∷ (bytes "torrin-starter-lifetime", bytes "starter")
    ∷ (bytes "torrin-standard-lifetime", bytes "standard")
    ∷ (bytes "torrin-pro-lifetime", bytes "pro")
    ∷ []
